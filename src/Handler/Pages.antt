-- ===== src/Handler/Pages.antt =====
-- The lists as a client gets them: the envelopes of internal/handler round the pages of
-- internal/repository.
use community_waste_collecti.Base.{ℕ, ◌≤◌, ◌≡◌, refl, sym, inl, inr, List, arith, subst, nat_eq, ap}
use community_waste_collecti.Domain.{Payment, PaymentFilter, Result-cases}
use community_waste_collecti.Database.{Env, World}
use community_waste_collecti.Repository.Lists.{payment_matches, default_per_page}
use community_waste_collecti.Repository.Lists.Order.{IsPage, list_payments-IsPage}
use community_waste_collecti.Service.Payments.{list}
use community_waste_collecti.Handler.{total_pages}
use community_waste_collecti.Handler.Responses.{
  Response, Progress, reached, answered, finished, listing, ListMeta, payments, respond_list,
  Progress-cases,
}
use community_waste_collecti.Handler.Handling.{◌>>=◌, call}
use community_waste_collecti.Handler.Paging.{Query, pagination_params}
use community_waste_collecti.Handler.Paging.Bounds.{pagination_params_bounds}
use community_waste_collecti.Handler.Filters.{payment_filter, payment_status_of, optional}
use community_waste_collecti.Handler.Requests.{Packages}
use community_waste_collecti.Handler.Payments.{list_payments}

total_pages-pos : (total per_page : ℕ) → 1 ≤ total_pages total per_page
unfolding total_pages
total_pages-pos total per_page = ground arith

default_per_page-pos : (n : ℕ) → 1 ≤ n → default_per_page n ≡ n
unfolding default_per_page
default_per_page-pos n h = ground arith

abbrev meta_of : Response → ListMeta
meta_of (listing body meta) = meta
meta_of _ = record { page = 0; per_page = 0; total = 0; total_pages = 0 }

listing_parts :
    (xs rows : List Payment) (total page per_page : ℕ) (meta : ListMeta)
    → respond_list (payments xs) total page per_page ≡ listing (payments rows) meta
    → (xs ≡ rows)
      × (meta.page ≡ page)
      × (meta.per_page ≡ per_page)
      × (meta.total_pages ≡ total_pages total per_page)
unfolding respond_list
listing_parts xs rows total page per_page meta k = (
  cc k,
  sym (ap (λ x. (meta_of x).page) k),
  sym (ap (λ x. (meta_of x).per_page) k),
  sym (ap (λ x. (meta_of x).total_pages) k),
)

abbrev paging_of : Progress PaymentFilter → Progress (ℕ × ℕ)
paging_of (reached f) = reached (f.page, f.per_page)
paging_of (answered x) = answered x

module _ {Body Decimal : Type 0} (pkg : Packages Body Decimal) (q : Query) where
  payment_filter-paging :
      (f : PaymentFilter)
      → payment_filter pkg q ≡ reached f
      → pagination_params q ≡ reached (f.page, f.per_page)
  unfolding payment_filter
  payment_filter-paging f = elim (Progress-cases (pagination_params q)) [
    | inr (x, e) ↦ rw e (λ k. absurd (cc k))
    | inl (paging, e) ↦ rw e (elim (Progress-cases (optional pkg.parse_uuid q.household_id)) [
      | inr (x, e1) ↦ rw e1 (λ k. absurd (cc k))
      | inl (h, e1) ↦ rw e1 (elim (Progress-cases (optional payment_status_of q.status)) [
        | inr (x, e2) ↦ rw e2 (λ k. absurd (cc k))
        | inl (s, e2) ↦ rw e2 (elim (Progress-cases (optional pkg.parse_rfc3339 q.date_from)) [
          | inr (x, e3) ↦ rw e3 (λ k. absurd (cc k))
          | inl (from, e3) ↦ rw e3 (elim (Progress-cases (optional pkg.parse_rfc3339 q.date_to)) [
            | inr (x, e4) ↦ rw e4 (λ k. absurd (cc k))
            | inl (to, e4) ↦ rw e4 (λ k. ap paging_of k)
          ])
        ])
      ])
    ])
  ]

  pub payments_listing-IsPage :
      (env : Env) (w : World) (rows : List Payment) (meta : ListMeta)
      → finished (list_payments pkg q env w).0 ≡ listing (payments rows) meta
      → (f : PaymentFilter) × (payment_filter pkg q ≡ reached f)
        × (meta.page ≡ f.page)
        × (meta.per_page ≡ f.per_page)
        × (1 ≤ f.page)
        × (1 ≤ f.per_page)
        × (f.per_page ≤ 100)
        × (1 ≤ meta.total_pages)
        × IsPage (λ p. p.created_at) (payment_matches f) f.per_page rows
  unfolding list_payments call
  payments_listing-IsPage env w rows meta = elim (Progress-cases (payment_filter pkg q)) [
    | inr (x, e) ↦ rw e (λ k. absurd (cc k))
    | inl (f, e) ↦ rw e (elim (Result-cases (list f env w).0) [
      | inr (x, e') ↦ rw (e', ◌>>=◌) (λ k. absurd (cc k))
      | inl (page, e') ↦
          rw (e', ◌>>=◌)
            (λ k.
              let (low, some_rows, high) =
                pagination_params_bounds q f.page f.per_page (payment_filter-paging f e) in
              let (same, at_page, of_size, pages) =
                listing_parts page.0 rows page.1 f.page f.per_page meta k in
              let size = default_per_page-pos f.per_page some_rows in
              let found = list_payments-IsPage f env w page.0 page.1 (unfold list in e') in
              (
                f,
                refl,
                at_page,
                of_size,
                low,
                some_rows,
                high,
                rw pages (total_pages-pos page.1 f.per_page),
                subst
                    (λ (xs : List Payment).
                      IsPage (λ p. p.created_at) (payment_matches f) f.per_page xs)
                    same
                    (subst (λ (n : ℕ). IsPage (λ p. p.created_at) (payment_matches f) n page.0) size
                      found),
              ))
    ])
  ]
