-- ===== src/Service/Pickups/Advance.antt =====
-- Complete of internal/service/pickup.go on a pickup that was charged for before its completion.
use community_waste_collecti.Base.{
  ◌⊎◌, ◌≡◌, refl, inl, inr, true, some, arith, ◌==◌, nat_eq, Bool-cases,
}
use community_waste_collecti.Table.{find, exists}
use community_waste_collecti.Table.Laws.{find-key, not-exists-find}
use community_waste_collecti.Domain.{
  Uuid, Time, WastePickup, pickup_row, pickup_status_eq, scheduled, Payment, payment_row,
  Result-cases, Error, err,
}
use community_waste_collecti.Database.{Db, Env, World, ◌>>=◌, ◌>>◌, transaction}
use community_waste_collecti.Database.Calls.{seen, transaction-err}
use community_waste_collecti.Repository.Pickups
use community_waste_collecti.Repository.Payments.{has_waste, violates_unique}
use community_waste_collecti.Service.Pickups.{complete, complete_tx, payment_for}
use community_waste_collecti.Service.Pickups.Completion.{marked, complete_tx-cases}
use community_waste_collecti.Service.Pickups.Charging.{read_row, read_only}

charged_before :
    (id : Uuid) (o : WastePickup) (now : Time) (d : Db) (j : Uuid) (r : Payment)
    → o.id ≡ id
    → find j d.payments ≡ some r
    → r.waste_id ≡ id
    → violates_unique (payment_for o) (marked id now d) ≡ true
unfolding violates_unique has_waste payment_for Pickups.update_status_sql
charged_before id o now d j r own found of_it =
    elim (Bool-cases (exists (has_waste o.id) d.payments)) [
      | inl twice ↦ rw twice refl
      | inr once ↦
          absurd
            (ground (arith, not-exists-find (has_waste o.id) j r d.payments once found, own, of_it))
    ]

-- The transaction fails then, and is rolled back.
twice_charged :
    (env : Env) (id : Uuid) (w : World) (j : Uuid) (r : Payment) (o : WastePickup)
    → o.id ≡ id
    → find j (seen env (Pickups.find_by_id id env w).1).payments ≡ some r
    → r.waste_id ≡ id
    → (x : Error) × ((transaction (complete_tx id o) env (Pickups.find_by_id id env w).1).0 ≡ err x)
      × ((transaction (complete_tx id o) env (Pickups.find_by_id id env w).1).1.db
          ≡ seen env (Pickups.find_by_id id env w).1)
twice_charged env id w j r o own found of_it =
    let u : World = (Pickups.find_by_id id env w).1 in
    let again = charged_before id o (env u.calls).now (seen env u) j r own found of_it in
    elim (complete_tx-cases id o (env u.calls).now (seen env u)) [
      | inr (_, free, _, _) ↦ absurd (cc (free, again))
      | inl (x, g) ↦ transaction-err (complete_tx id o) env u x g
    ]

-- Where a pickup already has a payment at the tables of the transaction, whatever the status of that
-- payment, `Complete` is an error, and leaves the tables as other sessions did, at its read or at its
-- transaction: the pickup is not completed.
pub charged_pickup_never_completes :
    (env : Env) (id : Uuid) (w : World) (j : Uuid) (r : Payment)
    → find j (seen env (Pickups.find_by_id id env w).1).payments ≡ some r
    → r.waste_id ≡ id
    → ((x : Error) × ((complete id env w).0 ≡ err x))
      × (((complete id env w).1.db ≡ seen env w)
          ⊎ ((complete id env w).1.db ≡ seen env (Pickups.find_by_id id env w).1))
unfolding complete
charged_pickup_never_completes env id w j r found of_it =
    elim (Result-cases (Pickups.find_by_id id env w).0) [
      | inr (x, e) ↦ rw (e, ◌>>=◌) ((x, refl), inl (read_only id env w))
      | inl (o, e) ↦
          let own = find-key id o (seen env w).pickups (read_row id env w o e) in
          let (y, failed, same) = twice_charged env id w j r o own found of_it in
          rw (e, ◌>>=◌)
            (elim (Bool-cases (o.status == scheduled)) [
              | inr b ↦ rw b ((_, refl), inl (read_only id env w))
              | inl b ↦ rw b (rw (failed, ◌>>◌, ◌>>=◌) ((y, refl), inr same))
            ])
    ]
