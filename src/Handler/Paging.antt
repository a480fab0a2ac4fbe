-- ===== src/Handler/Paging.antt =====
-- internal/handler/handler.go: paginationParams, and what the query string of a request holds.
pub mod Bounds
use community_waste_collecti.Base.{
  ℕ, String, Option, none, some, ◌==◌, nat_eq, string_eq, leb, if◌then◌else◌, ℤ, pos, negsuc,
}
use community_waste_collecti.Strconv.{atoi}
use community_waste_collecti.Handler.Responses.{
  Progress, reached, answered, ◌>>=◌, bad_request, parsed,
}

-- c.QueryParam, which is empty for a parameter that is left out
pub record Query : Type 0 where
  pub page : String
  pub per_page : String
  pub household_id : String
  pub status : String
  pub date_from : String
  pub date_to : String

-- `convErr != nil || v <= 0` is `none`
abbrev pub positive_int : Option ℤ → Option ℕ
positive_int none = none
positive_int (some (pos n)) = if n == 0 then none else some n
positive_int (some (negsuc n)) = none

-- 0 for a parameter that is left out
unfoldable pub page_param : String → Progress ℕ
unfolding atoi
page_param raw = if raw == "" then reached 0 else parsed (positive_int (atoi raw))

unfoldable pub per_page_param : String → Progress ℕ
unfolding atoi
per_page_param raw = if raw == "" then reached 0 else elim (positive_int (atoi raw)) [
  | none ↦ answered bad_request
  | some v ↦ if leb v 100 then reached v else answered bad_request
]

abbrev pub or_default : ℕ → ℕ → ℕ
or_default fallback n = if n == 0 then fallback else n

unfoldable pub pagination_params : Query → Progress (ℕ × ℕ)
unfolding page_param per_page_param
pagination_params q = do
  page ← page_param q.page
  per_page ← per_page_param q.per_page
  reached (or_default 1 page, or_default 20 per_page)
