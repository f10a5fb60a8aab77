-- ===== src/UseCase/Crud/Tests.antt =====
-- Runs of the generic use cases of apps/tcc/usecase/usecases/base/base_uc.py.
use taunggyi_city_church.Common.{
  ℕ, ◌+◌, ◌≡◌, refl, true, Option, none, some, List, [], ◌∷◌, String, arith, ◌==◌, if◌then◌else◌,
}
use taunggyi_city_church.Common.Exec.{Outcome, ok, raised}
use taunggyi_city_church.Common.Int.{ℤ, pos}
use taunggyi_city_church.Common.Dict.{lookup}
use taunggyi_city_church.UseCase.Errors.{domain_exception}
use taunggyi_city_church.UseCase.Crud.{
  Repository, Input, Page, text, get_entity_name, convert_all, list, get_by_id, delete,
}
use taunggyi_city_church.UseCase.Crud.Pages.{params_of, list_pages}
use taunggyi_city_church.Pagination

-- a repository of two prayers, with the number of deletions as its state
abbrev prayers : Repository ℕ String ℕ
prayers = record {
  get_by_id = λ i n. (ok (some "peace"), n);
  create = λ fields n. (ok "peace", n);
  update = λ i fields n. (ok none, n);
  delete = λ i n. (ok true, n + 1);
  get_paginated = λ filters page per_page n. (ok ("peace" ∷ "health" ∷ [], 2), n);
}

abbrev input : Input ℕ
input = record {
  ids = ("id", text "4") ∷ [];
  fields = [];
  update_data = [];
  filters = [];
  page = some (pos 1);
  per_page = some (pos 1);
}

abbrev same_text : String → String
same_text s = s

abbrev four : String → Option ℤ
four s = some (pos 4)

abbrev whole : String → Outcome String
whole s = ok s

abbrev both : List String
both = "peace" ∷ "health" ∷ []

converted : convert_all same_text four whole prayers "ListPrayerUseCase" both 0 ≡ (ok both, 0)
unfolding convert_all
converted = refl

list_pages_example :
    (p : Page String) × (list same_text four whole prayers "ListPrayerUseCase" input none 0
      ≡ (ok p, 0))
    × (p.items ≡ both)
    × (p.total ≡ 2)
    × (p.has_next ≡ (Pagination.create both 2 (params_of 1 1)).pagination.has_next)
    × (p.has_prev ≡ (Pagination.create both 2 (params_of 1 1)).pagination.has_prev)
    × (p.total_pages
        ≡ (if 2 == 0 then 0 else (Pagination.create both 2 (params_of 1 1)).pagination.total_pages))
list_pages_example =
    list_pages same_text four whole prayers "ListPrayerUseCase" input none 1 1 2 both both 0 0
      (omega arith) (omega arith) refl refl refl converted

named : get_entity_name "ListPrayerUseCase" ≡ "Prayer"
unfolding get_entity_name
named = refl

missing :
    get_by_id same_text four whole prayers "GetPrayerUseCase" (record input { ids = [] }) none 0
    ≡ (raised (domain_exception "Prayer ID is required" "MISSING_ID" 400 none), 0)
unfolding get_by_id lookup
missing = refl

deleted : (delete same_text four whole prayers "DeletePrayerUseCase" input none 0).1 ≡ 1
unfolding delete lookup
deleted = refl
