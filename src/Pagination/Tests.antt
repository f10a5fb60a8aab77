-- ===== src/Pagination/Tests.antt =====
-- The pages of 45 records, 20 to a page.
use taunggyi_city_church.Common.{ℕ, ◌+◌, ◌≤◌, ◌<◌, ◌≡◌, refl, ◌↔◌, true, List, []}
use taunggyi_city_church.Common.Int.{pos}
use taunggyi_city_church.Common.Exec.{ok}
use taunggyi_city_church.Pagination.{
  PaginationParams, validate_page, validate_page_size, make_params, skip, create,
}
use taunggyi_city_church.Pagination.Pages.{pages_cover}

abbrev second : PaginationParams
second = record { page = 2; page_size = 20 }

accepted : make_params (pos 2) (pos 20) ≡ ok second
unfolding make_params validate_page validate_page_size
accepted = refl

abbrev no_items : List ℕ
no_items = []

pages_cover_example :
    let info = (create no_items 45 second).pagination in
    (20 ≤ 100)
    × (skip (record second { page = 3 }) ≡ skip second + 20)
    × ((info.has_next ≡ true) ↔ (skip second + 20 < 45))
    × ((info.has_prev ≡ true) ↔ (0 < skip second))
pages_cover_example = pages_cover (pos 2) (pos 20) second no_items 45 accepted
