-- ===== src/UseCase/Crud/Pages.antt =====
-- The pages of `GenericListUseCase` of apps/tcc/usecase/usecases/base/base_uc.py beside those of
-- apps/core/schemas/common/pagination.py.
use taunggyi_city_church.Common.{
  ℕ, zero, suc, ◌+◌, ◌-◌, ◌/◌, ◌≤◌, ◌≡◌, refl, Option, some, List, String, arith, ◌==◌,
  if◌then◌else◌,
}
use native.Mathlib.Nat.{div-eq_of_lt}
use taunggyi_city_church.Common.Exec.{Outcome, ok}
use taunggyi_city_church.Common.Int.{ℤ, pos}
use taunggyi_city_church.UseCase.Access.{Actor}
use taunggyi_city_church.UseCase.Crud.{Repository, Input, Page, make_page, convert_all, list}
use taunggyi_city_church.Pagination
use taunggyi_city_church.Pagination.{PaginationParams, PaginatedResponse}

abbrev pub params_of : ℕ → ℕ → PaginationParams
params_of page page_size = record { page = page; page_size = page_size }

pages_lem :
    (total per_page : ℕ)
    → 1 ≤ per_page
    → (total + per_page - 1) / per_page
      ≡ (if total == 0 then 0 else Pagination.ceil_div total per_page)
pages_lem zero per_page k = div-eq_of_lt (omega arith)
pages_lem (suc total) per_page k = ground arith

make_page_lem :
    {Schema : Type 0} (items : List Schema) (total page per_page : ℕ)
    → 1 ≤ page
    → 1 ≤ per_page
    → let p = make_page items total (pos page) (pos per_page) in
      let c = (Pagination.create items total (params_of page per_page)).pagination in
      (p.has_next ≡ c.has_next)
      × (p.has_prev ≡ c.has_prev)
      × (p.total_pages ≡ (if total == 0 then 0 else c.total_pages))
unfolding make_page Pagination.create
make_page_lem items total page per_page h k = ground (arith, pages_lem total per_page)

module _ {World Entity Schema V : Type 0} (lower : String → String) (read_int : String → Option ℤ)
    (model_validate : Entity → Outcome Schema) (repository : Repository World Entity V)
    (class_name : String) where
  -- For page and per_page of at least 1, a repository that answers and entities that all convert, list
  -- returns the converted entities and the total, and says of the pages before and after what
  -- PaginatedResponse.create says. Its number of pages is the same too, but for an empty result, of
  -- which it says 0 pages and PaginatedResponse.create 1.
  pub list_pages :
      (input : Input V) (user : Option Actor) (page per_page total : ℕ) (entities : List Entity)
      (items : List Schema) (w w1 : World)
      → 1 ≤ page
      → 1 ≤ per_page
      → input.page ≡ some (pos page)
      → input.per_page ≡ some (pos per_page)
      → repository.get_paginated input.filters (pos page) (pos per_page) w
        ≡ (ok (entities, total), w1)
      → (convert_all lower read_int model_validate repository class_name entities w1)
        ≡ (ok items, w1)
      → let c = (Pagination.create items total (params_of page per_page)).pagination in
        (p : Page Schema) × (list lower read_int model_validate repository class_name input user w
          ≡ (ok p, w1))
        × (p.items ≡ items)
        × (p.total ≡ total)
        × (p.has_next ≡ c.has_next)
        × (p.has_prev ≡ c.has_prev)
        × (p.total_pages ≡ (if total == 0 then 0 else c.total_pages))
  unfolding list make_page
  list_pages input user page per_page total entities items w w1 h k ep eq found converted =
      let (next, prev, pages) = make_page_lem items total page per_page h k in
      (
        make_page items total (pos page) (pos per_page),
        rw (ep, eq, found, converted) refl,
        refl,
        refl,
        next,
        prev,
        pages,
      )
