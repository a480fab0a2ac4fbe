-- ===== src/Repository/Reports/History.antt =====
-- What HouseholdHistory of internal/repository/payment.go answers.
use community_waste_collecti.Base.{
  ◌≡◌, ap, subst, List, Option, none, some, arith, ◌==◌, nat_eq, true,
}
use community_waste_collecti.Table.{find, select}
use community_waste_collecti.Table.Laws.{find-key}
use community_waste_collecti.Domain.{Uuid, Household, household_row, WastePickup, Payment, ok}
use community_waste_collecti.Database.{
  Db, Env, World, Outcome, done, failed_with, query, select_from,
}
use community_waste_collecti.Database.Calls.{seen, select-result}
use community_waste_collecti.Repository.Households.{of_household}
use community_waste_collecti.Repository.Lists.{ordered}
use community_waste_collecti.Repository.Lists.Order.{
  Every, Descending, Every-map, Every-select, Every-ordered, Descending-ordered,
}
use community_waste_collecti.Repository.Reports.{HouseholdHistoryResult, history, household_history}

-- Three lookups that come to an answer are the three parts of it.
history-ok :
    (o : Outcome (Option Household)) (ps : Outcome (List WastePickup)) (qs : Outcome (List Payment))
    (r : HouseholdHistoryResult)
    → history o ps qs ≡ ok r
    → (o ≡ done (some r.household)) × (ps ≡ done r.pickups) × (qs ≡ done r.payments)
unfolding history
history-ok (failed_with e) ps qs r k = absurd (cc k)
history-ok (done o) (failed_with e) qs r k = absurd (cc k)
history-ok (done o) (done ps) (failed_with e) r k = absurd (cc k)
history-ok (done none) (done ps) (done qs) r k = absurd (cc k)
history-ok (done (some h)) (done ps) (done qs) r k =
    let same : record { household = h; pickups = ps; payments = qs } ≡ r = cc k in
    (
      ap (λ x. done (some x.household)) same,
      ap (λ x. done x.pickups) same,
      ap (λ x. done x.payments) same,
    )

own_pickup : (id : Uuid) (p : WastePickup) → of_household id p ≡ true → p.household_id ≡ id
unfolding of_household
own_pickup id p e = ground arith

own_payment : (id : Uuid) (q : Payment) → (q.household_id == id) ≡ true → q.household_id ≡ id
own_payment id q e = ground arith

-- The history of a household is of that household, with its own pickups and payments alone, each
-- list newest first, whatever other sessions do between the lookups.
pub history_is_of_one_household :
    (env : Env) (id : Uuid) (w : World) (r : HouseholdHistoryResult)
    → (household_history id env w).0 ≡ ok r
    → (r.household.id ≡ id)
      × Every (λ p. p.household_id ≡ id) r.pickups
      × Descending (λ p. p.created_at) r.pickups
      × Every (λ q. q.household_id ≡ id) r.payments
      × Descending (λ q. q.created_at) r.payments
unfolding household_history
history_is_of_one_household env id w r k =
    let home : Db → Option Household = λ d. find id d.households in
    let w1 : World = (query (select_from home) env w).1 in
    let pickups : Db → List WastePickup =
      λ d. ordered (λ p. p.created_at) (env w1.calls).scan (select (of_household id) d.pickups) in
    let w2 : World = (query (select_from pickups) env w1).1 in
    let payments : Db → List Payment = λ d.
      ordered (λ q. q.created_at) (env w2.calls).scan
        (select (λ q. q.household_id == id) d.payments) in
    let (a, b, c) =
      history-ok (query (select_from home) env w).0 (query (select_from pickups) env w1).0
        (query (select_from payments) env w2).0 r k in
    let at_home = select-result home env w (some r.household) a in
    let p = select-result pickups env w1 r.pickups b in
    let q = select-result payments env w2 r.payments c in
    let ps = (seen env w1).pickups in
    let qs = (seen env w2).payments in
    (
      find-key id r.household (seen env w).households at_home,
      subst (Every (λ x. x.household_id ≡ id)) p (
          Every-ordered (λ x. x.household_id ≡ id) (λ x. x.created_at) (env w1.calls).scan
            (select (of_household id) ps)
            (Every-map (own_pickup id) (select (of_household id) ps)
              (Every-select (of_household id) ps))),
      subst (Descending (λ x. x.created_at)) p (
          Descending-ordered (λ x. x.created_at) (env w1.calls).scan (select (of_household id) ps)),
      subst (Every (λ x. x.household_id ≡ id)) q (
          Every-ordered (λ x. x.household_id ≡ id) (λ x. x.created_at) (env w2.calls).scan
            (select (λ x. x.household_id == id) qs)
            (Every-map (own_payment id) (select (λ x. x.household_id == id) qs)
              (Every-select (λ x. x.household_id == id) qs))),
      subst (Descending (λ x. x.created_at)) q (
          Descending-ordered (λ x. x.created_at) (env w2.calls).scan
            (select (λ x. x.household_id == id) qs)),
    )
