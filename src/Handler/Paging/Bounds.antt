-- ===== src/Handler/Paging/Bounds.antt =====
-- Page numbers and sizes, as the query string spells them.
use community_waste_collecti.Base.{
  ℕ, ◌≤◌, ◌≡◌, refl, false, true, ◌==◌, nat_eq, string_eq, arith, leb, String,
}
use community_waste_collecti.Strconv.{max_int, itoa}
use community_waste_collecti.Strconv.RoundTrip.{atoi-itoa, itoa_not_empty}
use community_waste_collecti.Handler.Responses.{reached, bind-eq-reached, Progress}
use community_waste_collecti.Handler.Paging.{
  Query, page_param, or_default, per_page_param, pagination_params,
}

page_param-itoa : (n : ℕ) → 1 ≤ n → n ≤ max_int → page_param (itoa n) ≡ reached n
unfolding page_param
page_param-itoa n h bound =
    let not_zero : (n == 0) ≡ false = ground arith in
    rw (itoa_not_empty n, atoi-itoa n bound, not_zero) refl

per_page_param-itoa : (n : ℕ) → 1 ≤ n → n ≤ 100 → per_page_param (itoa n) ≡ reached n
unfolding per_page_param
per_page_param-itoa n h bound =
    let not_zero : (n == 0) ≡ false = ground arith in
    let small : leb n 100 ≡ true = ground arith in
    rw (itoa_not_empty n, atoi-itoa n (omega arith), not_zero, small) refl

-- Any page of an int64 and any size up to 100, written in decimal into the query string, are what
-- paginationParams reads from it, whatever else the query string holds.
pub pagination_params-itoa :
    (q : Query) (page per_page : ℕ)
    → 1 ≤ page
    → page ≤ max_int
    → 1 ≤ per_page
    → per_page ≤ 100
    → pagination_params (record q { page = itoa page; per_page = itoa per_page })
      ≡ reached (page, per_page)
unfolding pagination_params
pagination_params-itoa q page per_page h bound k small =
    let some_page : (page == 0) ≡ false = ground arith in
    let some_size : (per_page == 0) ≡ false = ground arith in
    rw (page_param-itoa page h bound, per_page_param-itoa per_page k small, some_page, some_size)
      refl

per_page_param-le : (raw : String) (n : ℕ) → per_page_param raw ≡ reached n → n ≤ 100
unfolding per_page_param
per_page_param-le raw n e = ground arith

defaults_in_range :
    (m n page per_page : ℕ)
    → n ≤ 100
    → ◌≡◌ {A = Progress (ℕ × ℕ)}
        (reached (or_default 1 m, or_default 20 n))
        (reached (page, per_page))
    → (1 ≤ page) × (1 ≤ per_page) × (per_page ≤ 100)
defaults_in_range m n page per_page most same = ground arith

-- What paginationParams reads is a page and a size in range.
pub pagination_params_bounds :
    (q : Query) (page per_page : ℕ)
    → pagination_params q ≡ reached (page, per_page)
    → (1 ≤ page) × (1 ≤ per_page) × (per_page ≤ 100)
unfolding pagination_params
pagination_params_bounds q page per_page e =
    let (m, e', rest) = bind-eq-reached (page_param q.page) _ e in
    let (n, read, same) = bind-eq-reached (per_page_param q.per_page) _ rest in
    defaults_in_range m n page per_page (per_page_param-le q.per_page n read) same
