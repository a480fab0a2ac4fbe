-- ===== src/Repository/Reports.antt =====
-- PaymentSummary and HouseholdHistory of internal/repository/payment.go.
pub mod Totals
pub mod History
pub mod Waste
use community_waste_collecti.Base.{
  ℕ, ◌+◌, Bool, List, [], ◌∷◌, ◌++◌, Option, none, some, ◌==◌, nat_eq, if◌then◌else◌,
}
use community_waste_collecti.Table.{find, affected, select}
use community_waste_collecti.Domain.{
  Uuid, Household, household_row, WastePickup, Payment, PaymentStatus, paid, failed,
  payment_status_eq, not_found, internal_failure, Result, ok, err,
}
use community_waste_collecti.Database.{
  Db, Action, pure, ◌>>=◌, Outcome, done, failed_with, exec, or_err, internal, select_from, query,
}
use community_waste_collecti.Repository.Households.{of_household}
use community_waste_collecti.Repository.Lists.{ordered}

pub record PaymentStatusSummary : Type 0 where
  pub status : PaymentStatus
  pub count : ℕ
  pub revenue : ℕ

pub record PaymentSummaryResult : Type 0 where
  pub by_status : List PaymentStatusSummary
  pub total_revenue : ℕ

-- SUM(amount) over the rows that satisfy the test
unfoldable pub sum_amounts : (Payment → Bool) → List Payment → ℕ
sum_amounts test [] = 0
sum_amounts test (q ∷ qs) =
    let rest = sum_amounts test qs in if test q then q.amount + rest else rest

abbrev pub has_status : PaymentStatus → Payment → Bool
has_status s q = q.status == s

-- The group of a status, if it has a row.
unfoldable pub status_group : PaymentStatus → List Payment → List PaymentStatusSummary
status_group s qs =
    let count = affected (has_status s) qs in
    if count == 0
    then []
    else record { status = s; count = count; revenue = sum_amounts (has_status s) qs } ∷ []

-- SELECT status, COUNT(*), SUM(amount) … GROUP BY status, in one of the orders that it may have
unfoldable pub group_by_status : List Payment → List PaymentStatusSummary
group_by_status qs =
    status_group PaymentStatus.pending qs ++ (status_group paid qs ++ status_group failed qs)

-- The loop over the rows, with the revenue so far.
unfoldable pub revenue_of : ℕ → List PaymentStatusSummary → ℕ
revenue_of total [] = total
revenue_of total (r ∷ rs) = revenue_of (if r.status == paid then r.revenue else total) rs

unfoldable pub payment_summary : Action PaymentSummaryResult
payment_summary = do
  rows ← exec (or_err internal) (select_from (λ d. group_by_status d.payments))
  pure (record { by_status = rows; total_revenue = revenue_of 0 rows })

pub record HouseholdHistoryResult : Type 0 where
  pub household : Household
  pub pickups : List WastePickup
  pub payments : List Payment

-- What the three lookups come to, once all have ended.
unfoldable pub history :
    Outcome (Option Household)
    → Outcome (List WastePickup)
    → Outcome (List Payment)
    → Result HouseholdHistoryResult
history (failed_with e) ps qs = err internal_failure
history (done o) (failed_with e) qs = err internal_failure
history (done o) (done ps) (failed_with e) = err internal_failure
history (done none) (done ps) (done qs) = err not_found
history (done (some h)) (done ps) (done qs) =
    ok (record { household = h; pickups = ps; payments = qs })

-- The lookups run at once and do not depend on each other: they are taken in the order of the code,
-- and other sessions act between them.
unfoldable pub household_history : Uuid → Action HouseholdHistoryResult
household_history id env w =
    let (h, w1) = query (select_from (λ d. find id d.households)) env w in
    let (ps, w2) =
      query
        (select_from (λ d.
          ordered (λ p. p.created_at) (env w1.calls).scan (select (of_household id) d.pickups)))
        env w1 in
    let (qs, w3) =
      query
        (select_from (λ d.
          ordered (λ q. q.created_at) (env w2.calls).scan
            (select (λ q. q.household_id == id) d.payments)))
        env w2 in
    (history h ps qs, w3)
