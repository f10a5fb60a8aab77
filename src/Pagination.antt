-- ===== src/Pagination.antt =====
-- apps/core/schemas/common/pagination.py: the parameters of a page and what a response says of it.
-- A total is a number of records, which is not negative.
pub mod Pages
mod Tests
use taunggyi_city_church.Common.{
  ℕ, zero, suc, ◌+◌, ◌-◌, ◌*◌, ◌/◌, Bool, ◌&&◌, not, List, ltb, leb, if◌then◌else◌,
}
use taunggyi_city_church.Common.Int.{ℤ, pos, pos_part, ltb_ℤ}
use taunggyi_city_church.Common.Exec.{value_error, Outcome, ok, raised}

pub record PaginationParams : Type 0 where
  pub page : ℕ
  pub page_size : ℕ

-- `validate_page`
unfoldable pub validate_page : ℤ → Outcome ℕ
validate_page v = if ltb_ℤ v (pos 1) then raised value_error else ok (pos_part v)

-- `validate_page_size`
unfoldable pub validate_page_size : ℤ → Outcome ℕ
validate_page_size v =
    if ltb_ℤ v (pos 1)
    then raised value_error
    else if ltb_ℤ (pos 100) v
    then raised value_error
    else ok (pos_part v)

abbrev pub sized : ℕ → Outcome ℕ → Outcome PaginationParams
sized page (ok page_size) = ok (record { page = page; page_size = page_size })
sized page (raised e) = raised e

abbrev pub params_of : Outcome ℕ → Outcome ℕ → Outcome PaginationParams
params_of (ok page) size = sized page size
params_of (raised e) size = raised e

-- the schema, with both of its fields validated
unfoldable pub make_params : ℤ → ℤ → Outcome PaginationParams
make_params page page_size = params_of (validate_page page) (validate_page_size page_size)

unfoldable pub skip : PaginationParams → ℕ
skip p = (p.page - 1) * p.page_size

pub record PaginationInfo : Type 0 where
  pub total : ℕ
  pub page : ℕ
  pub page_size : ℕ
  pub total_pages : ℕ
  pub has_next : Bool
  pub has_prev : Bool

pub record PaginatedResponse (A : Type 0) : Type 0 where
  pub items : List A
  pub pagination : PaginationInfo

-- `ceil(total / page_size)`, of the exact quotient, which the division of floats gives for numbers
-- below 2 ^ 53
abbrev pub ceil_div : ℕ → ℕ → ℕ
ceil_div total page_size = (total + (page_size - 1)) / page_size

unfoldable pub create : {A : Type 0} → List A → ℕ → PaginationParams → PaginatedResponse A
create items total params =
    let total_pages : ℕ =
      if ltb 0 total && ltb 0 params.page_size then ceil_div total params.page_size else 1 in
    record {
      items = items;
      pagination = record {
        total = total;
        page = params.page;
        page_size = params.page_size;
        total_pages = total_pages;
        has_next = ltb params.page total_pages;
        has_prev = ltb 1 params.page;
      };
    }
