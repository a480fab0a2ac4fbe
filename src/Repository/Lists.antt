-- ===== src/Repository/Lists.antt =====
-- The List methods of internal/repository: a COUNT, then one page of the rows, newest first.
-- The order of rows with one creation time is open, and may differ from query to query.
pub mod Offsets
pub mod Pages
pub mod Order
pub mod Ties
use community_waste_collecti.Base.{
  ℕ, zero, suc, ◌-◌, ◌*◌, Bool, true, false, ◌&&◌, List, [], ◌∷◌, Option, none, some, ◌==◌, nat_eq,
  ltb, leb, if◌then◌else◌, take, drop, ℤ, pos, negsuc, int64,
}
use community_waste_collecti.Table.{affected, select}
use community_waste_collecti.Domain.{
  Time, Household, WastePickup, pickup_status_eq, PickupFilter, Payment, payment_status_eq,
  PaymentFilter,
}
use community_waste_collecti.Database.{
  scan_order, Db, Action, pure, ◌>>=◌, exec, or_err, internal, select_from, Statement, failed_with,
  other_failure,
}

-- `if page <= 0 { page = 1 }`
unfoldable pub default_page : ℕ → ℕ
default_page page = if page == 0 then 1 else page

-- `if perPage <= 0 { perPage = 20 }`
unfoldable pub default_per_page : ℕ → ℕ
default_per_page per_page = if per_page == 0 then 20 else per_page

module _ {A : Type 0} (created_at : A → Time) where
  unfoldable pub insert_newest : A → List A → List A
  insert_newest x [] = x ∷ []
  insert_newest x (y ∷ ys) =
      let rest = insert_newest x ys in
      if ltb (created_at x) (created_at y) then y ∷ rest else x ∷ y ∷ ys

  -- The newest first, and rows of one time as they come
  unfoldable pub newest_first : List A → List A
  newest_first [] = []
  newest_first (x ∷ xs) = insert_newest x (newest_first xs)

unfoldable pub insert_at : {A : Type 0} → ℕ → A → List A → List A
insert_at zero x xs = x ∷ xs
insert_at (suc n) x [] = x ∷ []
insert_at (suc n) x (y ∷ ys) = y ∷ insert_at n x ys

-- A rearrangement of rows: the places at which they are put in, one after another. Each order of
-- the rows is that of some places.
unfoldable pub arrange : {A : Type 0} → List ℕ → List A → List A
unfolding insert_at
arrange [] xs = xs
arrange (n ∷ ns) [] = []
arrange (n ∷ ns) (x ∷ xs) = insert_at n x (arrange ns xs)

-- ORDER BY created_at DESC, of rows that are found in some order
unfoldable pub ordered : {A : Type 0} → (A → Time) → List ℕ → List A → List A
unfolding arrange newest_first
ordered created_at order xs = newest_first created_at (arrange order xs)

-- `(page-1)*perPage`, in 64 bits
unfoldable pub page_offset : ℕ → ℕ → ℤ
page_offset page per_page = int64 ((page - 1) * per_page)

unfoldable pub page_rows : {A : Type 0} → ℕ → ℕ → List A → List A
page_rows offset per_page xs = take per_page (drop offset xs)

-- A SELECT with LIMIT and OFFSET; PostgreSQL refuses a negative OFFSET.
unfoldable pub paged : {A : Type 0} → ℤ → ℕ → (Db → List A) → Statement (List A)
unfolding page_rows
paged (pos offset) per_page rows = select_from (λ d. page_rows offset per_page (rows d))
paged (negsuc n) per_page rows = λ now d. (failed_with other_failure, d)

-- The two statements, with the page and the WHERE clause worked out.
unfoldable pub list_rows :
    {A : Type 0} → (Db → List A) → (A → Time) → (A → Bool) → ℕ → ℕ → Action (List A × ℕ)
unfolding page_offset paged ordered
list_rows table created_at test page per_page = do
  total ← exec (or_err internal) (select_from (λ d. affected test (table d)))
  order ← scan_order
  rows ← exec (or_err internal) (
      paged (page_offset page per_page) per_page
        (λ d. ordered created_at order (select test (table d))))
  pure (rows, total)

-- A condition that the filter leaves out holds of every row.
abbrev pub asked : {A : Type 0} → (A → Bool) → Option A → Bool
asked test none = true
asked test (some a) = test a

-- The same for a column that may be NULL, which satisfies no comparison.
abbrev pub asked_of : {A : Type 0} → (A → A → Bool) → Option A → Option A → Bool
asked_of test none column = true
asked_of test (some a) none = false
asked_of test (some a) (some b) = test a b

unfoldable pub pickup_matches : PickupFilter → WastePickup → Bool
pickup_matches f p =
    asked (λ h. p.household_id == h) f.household_id && asked (λ s. p.status == s) f.status

unfoldable pub list_pickups : PickupFilter → Action (List WastePickup × ℕ)
list_pickups f =
    list_rows (λ d. d.pickups) (λ p. p.created_at) (pickup_matches f) (default_page f.page)
      (default_per_page f.per_page)

unfoldable pub payment_matches : PaymentFilter → Payment → Bool
payment_matches f q =
    asked (λ h. q.household_id == h) f.household_id
    && asked (λ s. q.status == s) f.status
    && asked_of (λ from on. leb from on) f.date_from q.payment_date
    && asked_of (λ to on. leb on to) f.date_to q.payment_date

unfoldable pub list_payments : PaymentFilter → Action (List Payment × ℕ)
list_payments f =
    list_rows (λ d. d.payments) (λ q. q.created_at) (payment_matches f) (default_page f.page)
      (default_per_page f.per_page)

unfoldable pub list_households : ℕ → ℕ → Action (List Household × ℕ)
list_households page per_page =
    list_rows (λ d. d.households) (λ h. h.created_at) (λ h. true) (default_page page)
      (default_per_page per_page)
