-- ===== src/Service/Pickups/Settlement.antt =====
-- BR-05: `Complete` of internal/service/pickup.go, its writes and its repetition.
use mathlib.Core.Path.{subst₂}
use community_waste_collecti.Base.{
  ◌⊎◌, ℕ, suc, ◌≡◌, refl, sym, ◌∙◌, ap, inl, inr, none, some, false, arith, ◌==◌, nat_eq,
  Bool-cases,
}
use community_waste_collecti.Table.{find}
use community_waste_collecti.Table.Laws.{find_above, find-lt, find-key}
use community_waste_collecti.Domain.{
  Uuid, Time, Payment, payment_row, PaymentStatus, payment_amounts, WastePickup, pickup_row,
  pickup_status_eq, scheduled, completed, ok, Result-cases, Error, err,
}
use community_waste_collecti.Database.{transaction, Db, Env, World, ◌>>=◌, query}
use community_waste_collecti.Database.Integrity.{
  completed_path, Evolves-trans, Inv, PickupStep, Evolves, Rely,
}
use community_waste_collecti.Database.Calls.{seen, transaction-ok, transaction-cases}
use community_waste_collecti.Repository.Pickups
use community_waste_collecti.Repository.Pickups.{update_status_sql, prior, some_row}
use community_waste_collecti.Service.Pickups.{complete, complete_tx}
use community_waste_collecti.Service.Pickups.Legality.{find_by_id-Legal, find_by_id-found}
use community_waste_collecti.Service.Pickups.Completion.{complete-Legal}
use community_waste_collecti.Service.Pickups.Outcomes.{seen-Inv, found-Inv}
use community_waste_collecti.Service.Pickups.Charging.{
  charged, settled_tables, body_ok, completed_row, charged_row, read_only, read_row,
}

module _ (env : Env) (rely : Rely env) where
  -- The key that the transaction takes from the supply is not one of the payments before the call.
  new_key :
      (id : Uuid) (w : World)
      → Inv w.db
      → find (seen env (Pickups.find_by_id id env w).1).next_id w.db.payments ≡ none
  new_key id w v =
      let (v', ev) = find_by_id-Legal env rely id w v in
      let u : World = (Pickups.find_by_id id env w).1 in
      find_above (seen env u).next_id w.db.next_id w.db.payments v.payment_keys
        (omega (arith, ev.supply, (rely u.calls u.db v').1.supply))

  -- BR-05: where `Complete` returns without an error, the row is completed, and the tables have a
  -- new payment of the pickup, pending, of its household and with the amount for its type.
  pub complete_ok :
      (id : Uuid) (w : World) (p : WastePickup)
      → Inv w.db
      → (complete id env w).0 ≡ ok p
      → ((q : WastePickup) × (find id (complete id env w).1.db.pickups ≡ some q)
          × (q.status ≡ completed))
        × ((j : Uuid) × (r : Payment) × (find j (complete id env w).1.db.payments ≡ some r)
            × (find j w.db.payments ≡ none)
            × (r.waste_id ≡ id)
            × (r.household_id ≡ p.household_id)
            × (r.amount ≡ payment_amounts p.type)
            × (r.status ≡ PaymentStatus.pending))
  unfolding complete
  complete_ok id w p v = elim (Result-cases (Pickups.find_by_id id env w).0) [
    | inr (x, e) ↦ rw (e, ◌>>=◌) (λ k. absurd (cc k))
    | inl (o, e) ↦
        rw (e, ◌>>=◌)
          (elim (Bool-cases (o.status == scheduled)) [
            | inr b ↦ rw b (λ k. absurd (cc k))
            | inl b ↦
                rw b
                  (elim (Result-cases
                    (transaction (complete_tx id o) env (Pickups.find_by_id id env w).1).0) [
                      | inr (x, f) ↦ rw (f, ◌>>=◌) (λ k. absurd (cc k))
                      | inl (r, f) ↦
                          rw (f, ◌>>=◌)
                            (λ k.
                              let it : record o { status = completed } ≡ p = cc k in
                              let u : World = (Pickups.find_by_id id env w).1 in
                              let now : Time = (env u.calls).now in
                              let d : Db = seen env u in
                              let v' : Inv d = seen-Inv env rely u (found-Inv env rely id w v) in
                              let (passed, wrote) = transaction-ok (complete_tx id o) env u r f in
                              let (counted, same) = body_ok id o now d r passed in
                              let (q, at_q, is_completed) = completed_row id o now d v' counted in
                              (
                                (
                                  q,
                                  ap (λ (e : Db). find id e.pickups) (wrote ∙ same) ∙ at_q,
                                  is_completed,
                                ),
                                (
                                  d.next_id,
                                  charged id o now d,
                                  ap (λ (e : Db). find d.next_id e.payments) (wrote ∙ same)
                                      ∙ charged_row id o now d,
                                  new_key id w v,
                                  find-key id o u.db.pickups (find_by_id-found env rely id w o e),
                                  ap (λ x. x.household_id) it,
                                  ap (λ x. payment_amounts x.type) it,
                                  refl,
                                ),
                              ))
                    ])
          ])
  ]

-- A pickup that was completed is still completed when a later call reads it.
still_completed :
    (later : Env) (id : Uuid) (w w' : World) (r o : WastePickup)
    → Rely later
    → Inv w.db
    → Inv w'.db
    → Evolves w.db w'.db
    → find id w.db.pickups ≡ some r
    → r.status ≡ completed
    → (Pickups.find_by_id id later w').0 ≡ ok o
    → (o.status == scheduled) ≡ false
still_completed later id w w' r o rely v v' ev at_r is_completed e =
    let whole = Evolves-trans ev (find_by_id-Legal later rely id w' v').1 in
    let at_o = find_by_id-found later rely id w' o e in
    let b = subst₂ PickupStep at_r at_o (whole.pickups id (find-lt id _ r _ v.pickup_keys at_r)) in
    ground (arith, completed_path b.lifecycle is_completed)

refuses_completed :
    (later : Env) (id : Uuid) (w' : World)
    → ((o : WastePickup)
        → (Pickups.find_by_id id later w').0 ≡ ok o
        → (o.status == scheduled) ≡ false)
    → ((x : Error) × ((complete id later w').0 ≡ err x))
      × ((complete id later w').1.db ≡ seen later w')
unfolding complete
refuses_completed later id w' settled = elim (Result-cases (Pickups.find_by_id id later w').0) [
  | inr (x, e) ↦ rw (e, ◌>>=◌) ((x, refl), read_only id later w')
  | inl (o, e) ↦ rw (e, ◌>>=◌) (rw (settled o e) ((_, refl), read_only id later w'))
]

-- A pickup is charged for once: where a `Complete` has left its pickup completed, whether it returned
-- without an error or its reply was lost, a `Complete` of that pickup at any later tables is an error
-- and leaves the tables as other sessions did, so that it adds no payment; and all the payments of
-- the pickup there are one row.
pub complete_once :
    (env later : Env) (id : Uuid) (w w' : World) (r : WastePickup)
    → Rely env
    → Rely later
    → Inv w.db
    → find id (complete id env w).1.db.pickups ≡ some r
    → r.status ≡ completed
    → Inv w'.db
    → Evolves (complete id env w).1.db w'.db
    → ((x : Error) × ((complete id later w').0 ≡ err x))
      × ((complete id later w').1.db ≡ seen later w')
      × ((i j : Uuid) (p q : Payment)
          → find i (complete id later w').1.db.payments ≡ some p
          → find j (complete id later w').1.db.payments ≡ some q
          → p.waste_id ≡ id
          → q.waste_id ≡ id
          → i ≡ j)
complete_once env later id w w' r rely rely' v at_r is_completed v' ev =
    let kept : Inv (complete id env w).1.db = (complete-Legal env rely id w v).0 in
    let whole : Inv (complete id later w').1.db = (complete-Legal later rely' id w' v').0 in
    let (failed, same) = refuses_completed later id w' (λ o e.
      still_completed later id (complete id env w).1 w' r o rely' kept v' ev at_r is_completed e) in
    (failed, same, λ i j p q at_i at_j a b. whole.one_payment i j p q at_i at_j (a ∙ sym b))

one_call : (id : Uuid) (env : Env) (w : World) → (Pickups.find_by_id id env w).1.calls ≡ suc w.calls
unfolding Pickups.find_by_id query
one_call id env w = ground arith

all_or_nothing :
    (env : Env) (id : Uuid) (w : World) (o : WastePickup)
    → ((transaction (complete_tx id o) env (Pickups.find_by_id id env w).1).1.db
        ≡ seen env (Pickups.find_by_id id env w).1)
      ⊎ ((transaction (complete_tx id o) env (Pickups.find_by_id id env w).1).1.db
          ≡ settled_tables id o (env (suc w.calls)).now (seen env (Pickups.find_by_id id env w).1))
all_or_nothing env id w o =
    let u : World = (Pickups.find_by_id id env w).1 in
    elim (transaction-cases (complete_tx id o) env u) [
      | inl same ↦ inl same
      | inr (r, passed, wrote) ↦ inr (
          wrote
          ∙ (body_ok id o (env u.calls).now (seen env u) r passed).1
          ∙ ap (λ (n : ℕ). settled_tables id o (env n).now (seen env u)) (one_call id env w))
    ]

pub complete_atomic :
    (env : Env) (id : Uuid) (w : World)
    → ((complete id env w).1.db ≡ seen env w)
      ⊎ ((o : WastePickup) × (find id (seen env w).pickups ≡ some o)
          × (o.status ≡ scheduled)
          × (((complete id env w).1.db ≡ seen env (Pickups.find_by_id id env w).1)
              ⊎ ((complete id env w).1.db
                  ≡ settled_tables id o
                      (env (suc w.calls)).now
                      (seen env (Pickups.find_by_id id env w).1))))
unfolding complete
complete_atomic env id w = elim (Result-cases (Pickups.find_by_id id env w).0) [
  | inr (x, e) ↦ rw (e, ◌>>=◌) (inl (read_only id env w))
  | inl (o, e) ↦
      rw (e, ◌>>=◌)
        (elim (Bool-cases (o.status == scheduled)) [
          | inr b ↦ rw b (inl (read_only id env w))
          | inl b ↦ rw b (
              inr (
                o,
                read_row id env w o e,
                (pickup_status_eq.equals_iff _ _).0 b,
                elim (Result-cases
                    (transaction (complete_tx id o) env (Pickups.find_by_id id env w).1).0) [
                      | inr (x, f) ↦ rw (f, ◌>>=◌) (all_or_nothing env id w o)
                      | inl (r, f) ↦ rw (f, ◌>>=◌) (all_or_nothing env id w o)
                    ],
              ))
        ])
]
