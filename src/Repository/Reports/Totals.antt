-- ===== src/Repository/Reports/Totals.antt =====
-- What the reports of internal/repository/payment.go add up to.
use community_waste_collecti.Base.{
  ℕ, ◌+◌, ◌≡◌, refl, sym, ◌∙◌, ap, true, List, [], ◌∷◌, ◌++◌, length, arith, inl, inr, ◌==◌, nat_eq,
}
use community_waste_collecti.Table.{affected}
use community_waste_collecti.Domain.{
  Payment, PaymentStatus, paid, failed, payment_status_eq, ok, Result-cases,
}
use community_waste_collecti.Database.{
  Db, Env, World, ◌>>=◌, exec, or_err, internal, select_from, query,
}
use community_waste_collecti.Database.Calls.{seen, select-result, or_err-ok}
use community_waste_collecti.Repository.Reports.{
  PaymentStatusSummary, PaymentSummaryResult, sum_amounts, has_status, status_group,
  group_by_status, revenue_of, payment_summary,
}

-- What has been paid.
unfoldable pub paid_total : List Payment → ℕ
paid_total [] = 0
paid_total (q ∷ qs) = elim q.status [
  | PaymentStatus.pending ↦ paid_total qs
  | paid ↦ q.amount + paid_total qs
  | failed ↦ paid_total qs
]

unfoldable pub counted : List PaymentStatusSummary → ℕ
counted [] = 0
counted (r ∷ rs) = r.count + counted rs

sum-paid : (qs : List Payment) → sum_amounts (has_status paid) qs ≡ paid_total qs
unfolding sum_amounts paid_total
sum-paid [] = refl
sum-paid (q ∷ qs) = ground (arith, sum-paid qs)

counted-++ : (rs ss : List PaymentStatusSummary) → counted (rs ++ ss) ≡ counted rs + counted ss
unfolding counted
counted-++ [] ss = omega arith
counted-++ (r ∷ rs) ss = omega (arith, counted-++ rs ss)

counted-group :
    (s : PaymentStatus) (qs : List Payment)
    → counted (status_group s qs) ≡ affected (has_status s) qs
unfolding status_group counted
counted-group s qs = ground arith

one_status_each :
    (qs : List Payment)
    → affected (has_status PaymentStatus.pending) qs
        + (affected (has_status paid) qs + affected (has_status failed) qs)
      ≡ length qs
unfolding affected
one_status_each [] = omega arith
one_status_each (q ∷ qs) = ground (arith, one_status_each qs)

none_paid : (qs : List Payment) → (affected (has_status paid) qs == 0) ≡ true → paid_total qs ≡ 0
unfolding affected paid_total
none_paid [] e = refl
none_paid (q ∷ qs) e = ground (arith, none_paid qs)

revenue-group : (qs : List Payment) → revenue_of 0 (group_by_status qs) ≡ paid_total qs
unfolding revenue_of group_by_status status_group
revenue-group qs = ground (arith, sum-paid qs, none_paid qs)

counted-all : (qs : List Payment) → counted (group_by_status qs) ≡ length qs
unfolding group_by_status
counted-all qs =
    let a : List PaymentStatusSummary = status_group PaymentStatus.pending qs in
    let b : List PaymentStatusSummary = status_group paid qs in
    let c : List PaymentStatusSummary = status_group failed qs in
    omega (
      arith,
      counted-++ a (b ++ c),
      counted-++ b c,
      counted-group PaymentStatus.pending qs,
      counted-group paid qs,
      counted-group failed qs,
      one_status_each qs,
    )

-- The summary of payments adds up: its total revenue is what has been paid, and its counts are all
-- the payments, at the tables that its query met.
pub payment_summary_adds_up :
    (env : Env) (w : World) (r : PaymentSummaryResult)
    → (payment_summary env w).0 ≡ ok r
    → (r.total_revenue ≡ paid_total (seen env w).payments)
      × (counted r.by_status ≡ length (seen env w).payments)
unfolding payment_summary
payment_summary_adds_up env w r =
    let rows_of : Db → List PaymentStatusSummary = λ d. group_by_status d.payments in
    elim (Result-cases (exec (or_err internal) (select_from rows_of) env w).0) [
      | inr (x, e) ↦ rw (e, ◌>>=◌) (λ k. absurd (cc k))
      | inl (rows, e) ↦
          rw (e, ◌>>=◌)
            (λ k.
              let it =
                select-result rows_of env w rows
                  (or_err-ok internal (query (select_from rows_of) env w).0 rows e) in
              let same : record { by_status = rows; total_revenue = revenue_of 0 rows } ≡ r =
                cc k in
              (
                sym (ap (λ x. x.total_revenue) same)
                    ∙ ap (revenue_of 0) (sym it)
                    ∙ revenue-group (seen env w).payments,
                ap (λ x. counted x.by_status) (sym same)
                    ∙ ap counted (sym it)
                    ∙ counted-all (seen env w).payments,
              ))
    ]
