-- ===== src/Service/Pickups/Cancellation.antt =====
-- Cancel of internal/service/pickup.go: what it has done when it returns.
use mathlib.Core.Path.{subst₂}
use community_waste_collecti.Base.{
  ℕ, ◌≡◌, refl, sym, ◌∙◌, ap, inl, inr, true, false, some, arith, ◌==◌, nat_eq, Bool-cases,
}
use community_waste_collecti.Table.{find}
use community_waste_collecti.Table.Laws.{find-lt, affected-some}
use community_waste_collecti.Table.Found.{updated_hit}
use community_waste_collecti.Domain.{
  Uuid, household_row, WastePickup, pickup_row, canceled, pickup_status_eq, payment_row,
  payment_status_eq, ok, Result-cases,
}
use community_waste_collecti.Database.{Db, Env, World, ◌>>=◌, query, done, failed_with, Outcome}
use community_waste_collecti.Database.Integrity.{Inv, PickupStep, Rely, canceled_path}
use community_waste_collecti.Database.Calls.{seen, query-done}
use community_waste_collecti.Repository.Pickups
use community_waste_collecti.Repository.Pickups.{
  insert_pickup, has_pending_payment_for_household, is_pending_of, is_cancellable, cancel_sql,
  cancel_if_cancellable, positive,
}
use community_waste_collecti.Service.Pickups.{cancel}
use community_waste_collecti.Service.Pickups.Legality.{
  cancel_repo-Legal, find_by_id-Legal, find_by_id-found,
}
use community_waste_collecti.Service.Pickups.Outcomes.{seen-Inv}

positive-true : (o : Outcome ℕ) → positive o ≡ ok true → (n : ℕ) × (o ≡ done n) × ((n == 0) ≡ false)
positive-true (done n) e = (n, refl, ground arith)
positive-true (failed_with x) e = absurd (cc e)

-- The row of a cancellation that reached the tables.
canceled_row :
    (id : Uuid) (env : Env) (w : World)
    → Inv (seen env w)
    → (cancel_if_cancellable id env w).0 ≡ ok true
    → (q : WastePickup) × (find id (cancel_if_cancellable id env w).1.db.pickups ≡ some q)
      × (q.status ≡ canceled)
unfolding cancel_if_cancellable cancel_sql
canceled_row id env w v e =
    let (n, answered, some_of) = positive-true (query (cancel_sql id) env w).0 e in
    let (counted, wrote) = query-done (cancel_sql id) env w n answered in
    let (p, found, was) =
      affected-some (λ x. is_cancellable x.status) id (seen env w).next_id (seen env w).pickups
        v.pickup_keys (ground (arith, counted, some_of)) in
    (
      _,
      ap (λ (d : Db). find id d.pickups) wrote
          ∙ updated_hit (λ x. is_cancellable x.status)
              (λ x. record x { status = canceled; updated_at = (env w.calls).now }) id
              (seen env w).pickups (λ x. refl) found was,
      refl,
    )

module _ (env : Env) (rely : Rely env) where
  -- What `Cancel` returns without an error is the pickup as the tables have it, canceled.
  pub cancel_ok :
      (id : Uuid) (w : World) (p : WastePickup)
      → Inv w.db
      → (cancel id env w).0 ≡ ok p
      → (find id (cancel id env w).1.db.pickups ≡ some p) × (p.status ≡ canceled)
  unfolding cancel
  cancel_ok id w p v = elim (Result-cases (cancel_if_cancellable id env w).0) [
    | inr (x, e) ↦ rw (e, ◌>>=◌) (λ k. absurd (cc k))
    | inl (hit, e) ↦
        rw (e, ◌>>=◌)
          (elim (Result-cases (Pickups.find_by_id id env (cancel_if_cancellable id env w).1).0) [
            | inr (x, f) ↦ rw (f, ◌>>=◌) (λ k. absurd (cc k))
            | inl (o, f) ↦
                rw (f, ◌>>=◌)
                  (elim (Bool-cases hit) [
                    | inr b ↦ rw b (λ k. absurd (cc k))
                    | inl b ↦ rw b (λ k.
                        let same : o ≡ p = cc k in
                        let u : World = (cancel_if_cancellable id env w).1 in
                        let (q, at_q, is_canceled) =
                          canceled_row id env w (seen-Inv env rely w v) (e ∙ ap ok b) in
                        let kept : Inv u.db = (cancel_repo-Legal env rely id w v).0 in
                        let at_o = find_by_id-found env rely id u o f in
                        let step =
                          (find_by_id-Legal env rely id u kept).1.pickups id
                            (find-lt id u.db.next_id q u.db.pickups kept.pickup_keys at_q) in
                        let becomes = subst₂ PickupStep at_q at_o step in
                        (
                          at_o ∙ ap some same,
                          ap (λ x. x.status) (sym same)
                              ∙ canceled_path becomes.lifecycle is_canceled,
                        ))
                  ])
          ])
  ]
