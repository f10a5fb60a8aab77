-- ===== src/Pagination/Pages.antt =====
-- The pages of apps/core/schemas/common/pagination.py cover the records, and no record twice.
use taunggyi_city_church.Common.{
  ℕ, zero, suc, ◌+◌, ◌-◌, ◌*◌, ◌≤◌, ◌<◌, ◌≡◌, sym, ◌∙◌, ap, subst, ◌↔◌, inl, inr, Bool-cases, Bool,
  true, false, ◌&&◌, List, ltb, arith, if◌then◌else◌,
}
use taunggyi_city_church.Common.Int.{ℤ, pos, negsuc, ltb_ℤ}
use taunggyi_city_church.Common.Exec.{value_error, Outcome, ok, raised}
use native.Mathlib.Nat.{le-div_iff_mul-le, suc-mul, mul-pos, zero-mul}
use taunggyi_city_church.Pagination.{
  PaginationParams, validate_page, validate_page_size, make_params, params_of, sized, skip, create,
  ceil_div,
}

-- Parameters that pass start at page 1 and have a size from 1 to 100.
pub record IsValid (p : PaginationParams) : Type 0 where
  pub page : 1 ≤ p.page
  pub least : 1 ≤ p.page_size
  pub most : p.page_size ≤ 100

of_sizes :
    (page size : ℕ) (p : PaginationParams)
    → 1 ≤ page
    → 1 ≤ size
    → size ≤ 100
    → ok (record { page = page; page_size = size }) ≡ ok p
    → IsValid p
of_sizes page size p first least most e =
    subst IsValid (ap (λ (r : Outcome PaginationParams). given r) e)
      (record { page = first; least = least; most = most })
  where
    given : Outcome PaginationParams → PaginationParams
    given (ok q) = q
    given (raised x) = record { page = 1; page_size = 20 }

-- the records up to the end of a page
page_end : (page size : ℕ) → 1 ≤ page → page * size ≡ (page - 1) * size + size
page_end (suc n) size h = suc-mul n size ∙ ap (λ (k : ℕ). k * size + size) (omega arith)
page_end zero size h = absurd (omega (arith, h))

skip_next : (page size : ℕ) → 1 ≤ page → (page + 1 - 1) * size ≡ (page - 1) * size + size
skip_next page size h = ap (λ (k : ℕ). k * size) (omega arith) ∙ page_end page size h

prev_lem : (page size : ℕ) → 1 ≤ page → 1 ≤ size → (ltb 1 page ≡ true) ↔ (0 < (page - 1) * size)
prev_lem page size h least = (
  λ e. mul-pos {m = page - 1} {n = size} (ground (arith, e)) (omega (arith, least)),
  λ some_before. elim (Bool-cases (ltb 1 page)) [
    | inl later ↦ later
    | inr first ↦ absurd (
        omega (arith, some_before, zero-mul size, ap (λ (k : ℕ). k * size) (first_page page first)))
  ],
)
  where
    first_page : (page : ℕ) → ltb 1 page ≡ false → page - 1 ≡ 0
    first_page page e = ground (arith, e)

-- a number that is at least 1 after the tests
sized-IsValid :
    (page : ℕ) (v : ℤ) (p : PaginationParams)
    → 1 ≤ page
    → sized page (validate_page_size v) ≡ ok p
    → IsValid p
unfolding validate_page_size
sized-IsValid page (pos n) p h e = elim (Bool-cases (ltb n 1)) [
  | inl small ↦ absurd (ground (arith, e, small))
  | inr enough ↦ elim (Bool-cases (ltb 100 n)) [
    | inl large ↦ absurd (ground (arith, e, enough, large))
    | inr fits ↦
        of_sizes page n p h (ground (arith, enough)) (ground (arith, fits))
          (ground (arith, e, enough, fits))
  ]
]
sized-IsValid page (negsuc n) p h e = absurd (ground (arith, e))

validated :
    (n : ℕ) (v : ℤ) (p : PaginationParams)
    → ltb n 1 ≡ false
    → make_params (pos n) v ≡ ok p
    → sized n (validate_page_size v) ≡ ok p
unfolding make_params validate_page
validated n v p enough h =
    let padded : ltb_ℤ (pos n) (pos 1) ≡ false = ground (arith, enough) in
    sym (
      ap (λ (o : Outcome ℕ). params_of o (validate_page_size v))
        (ap (λ (b : Bool). if b then raised value_error else ok n) padded))
    ∙ h

pub make_params-IsValid :
    (page page_size : ℤ) (p : PaginationParams) → make_params page page_size ≡ ok p → IsValid p
unfolding make_params validate_page
make_params-IsValid (pos n) page_size p h = elim (Bool-cases (ltb n 1)) [
  | inl small ↦ absurd (ground (arith, h, small))
  | inr enough ↦
      sized-IsValid n page_size p (ground (arith, enough)) (validated n page_size p enough h)
]
make_params-IsValid (negsuc n) page_size p h = absurd (ground (arith, h))

-- the n pages before do not hold all records exactly if there is another page
ceil_lem : (total size n : ℕ) → 1 ≤ size → (n < ceil_div total size) ↔ (n * size < total)
ceil_lem total size n h =
    let (there, back) =
      le-div_iff_mul-le {k = size} {x = suc n} {y = total + (size - 1)} (omega arith) in
    (
      λ below. omega (arith, there (omega (arith, below)), suc-mul n size, h),
      λ below. omega (arith, back (omega (arith, below, suc-mul n size, h))),
    )

next_lem :
    (total size page : ℕ)
    → 1 ≤ page
    → 1 ≤ size
    → (ltb page (if ltb 0 total && ltb 0 size then ceil_div total size else 1) ≡ true)
      ↔ (page * size < total)
next_lem total size page first least = elim (Bool-cases (ltb 0 total)) [
  | inl some_there ↦ ground (arith, some_there, ceil_lem total size page least)
  | inr empty ↦ ground (arith, empty)
]

-- Of parameters that the schema accepts, at most 100 records are on a page; the records before the
-- page and those of one page more are those before the next page; there is a next page exactly if
-- there are records after this one, and a previous one exactly if there are records before it.
pub pages_cover :
    {A : Type 0} (page page_size : ℤ) (p : PaginationParams) (items : List A) (total : ℕ)
    → make_params page page_size ≡ ok p
    → let info = (create items total p).pagination in
      (p.page_size ≤ 100)
      × (skip (record p { page = p.page + 1 }) ≡ skip p + p.page_size)
      × ((info.has_next ≡ true) ↔ (skip p + p.page_size < total))
      × ((info.has_prev ≡ true) ↔ (0 < skip p))
unfolding create skip
pages_cover page page_size p items total h =
    let v = make_params-IsValid page page_size p h in
    let (there, back) = next_lem total p.page_size p.page v.page v.least in
    let before = skip_next p.page p.page_size v.page in
    let ends = page_end p.page p.page_size v.page in
    (
      v.most,
      before,
      (λ e. omega (arith, there e, ends), λ e. back (omega (arith, e, ends))),
      prev_lem p.page p.page_size v.page v.least,
    )
