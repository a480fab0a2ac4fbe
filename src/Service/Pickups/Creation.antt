-- ===== src/Service/Pickups/Creation.antt =====
-- Create of internal/service/pickup.go: what it has done when it returns, and BR-01.
use community_waste_collecti.Base.{
  ℕ, suc, ◌≡◌, refl, sym, ◌∙◌, ap, inl, inr, subst, Bool, true, none, some, arith, nat_eq,
  Bool-cases, Option-cases,
}
use community_waste_collecti.Table.{find, exists}
use community_waste_collecti.Table.Laws.{find_above, not-exists-find}
use community_waste_collecti.Table.Found.{find-head}
use community_waste_collecti.Domain.{
  Uuid, Time, Household, household_row, WastePickup, pickup_row, PickupStatus, pickup_status_eq,
  CreatePickupRequest, Payment, payment_row, PaymentStatus, payment_status_eq, conflict, Result, ok,
  err, Result-cases,
}
use community_waste_collecti.Database.{Db, Env, World, delivered, ◌>>=◌, query, done, select_from}
use community_waste_collecti.Database.Integrity.{Inv, Rely, Legal-refl}
use community_waste_collecti.Database.Calls.{seen, query-done, query-Legal, or_err-ok}
use community_waste_collecti.Repository.Pickups
use community_waste_collecti.Repository.Pickups.{
  insert_pickup, has_pending_payment_for_household, is_pending_of, is_cancellable, cancel_sql,
  cancel_if_cancellable, positive,
}
use community_waste_collecti.Service.Pickups.{create, new_pickup}
use community_waste_collecti.Service.Pickups.Legality.{Keeps}

has_pending-answer :
    (h : Uuid) (b : Bool) (env : Env) (w : World)
    → (env w.calls).reply ≡ delivered
    → exists (is_pending_of h) (seen env w).payments ≡ b
    → has_pending_payment_for_household h env w
      ≡ (ok b, record w { db = seen env w; calls = suc w.calls })
unfolding has_pending_payment_for_household query
has_pending-answer h b env w replied e = rw (replied, e) refl

-- BR-01: while the household has a pending payment at the tables that the first query meets, and the
-- reply of that query arrives, `Create` is a conflict after that query alone.
pub pending_payment_blocks :
    (env : Env) (req : CreatePickupRequest) (w : World) (i : Uuid) (q : Payment)
    → (env w.calls).reply ≡ delivered
    → find i (seen env w).payments ≡ some q
    → q.household_id ≡ req.household_id
    → q.status ≡ PaymentStatus.pending
    → create req env w ≡ (err conflict, record w { db = seen env w; calls = suc w.calls })
unfolding create
pending_payment_blocks env req w i q replied found owner waiting =
    elim (Bool-cases (exists (is_pending_of req.household_id) (seen env w).payments)) [
      | inr free ↦ absurd (
          unfold is_pending_of in
          ground (
            arith,
            not-exists-find (is_pending_of req.household_id) i q _ free found,
            owner,
            waiting,
          ))
      | inl busy ↦
          let answer = has_pending-answer req.household_id true env w replied busy in
          rw (answer, ◌>>=◌) (ap (λ (s : Result Bool × World). (err conflict, s.1)) answer)
    ]

-- The row that an INSERT which returns a row adds.
inserted_row :
    (o : WastePickup) (now : Time) (d : Db) (p : WastePickup)
    → (insert_pickup o now d).0 ≡ done p
    → ((h : Household) × (find o.household_id d.households ≡ some h))
      × (p ≡ record o { id = d.next_id; pickup_date = none; created_at = now; updated_at = now })
      × (find d.next_id (insert_pickup o now d).1.pickups ≡ some p)
unfolding insert_pickup
inserted_row o now d p = elim (Option-cases (find o.household_id d.households)) [
  | inl missing ↦ rw missing (λ k. absurd (cc k))
  | inr (h, found) ↦ rw found (λ k.
      let it : record o { id = d.next_id; pickup_date = none; created_at = now; updated_at = now }
          ≡ p =
        cc k in
      ((h, refl), sym it, find-head _ d.pickups ∙ ap some it))
]

pub created_row :
    (o : WastePickup) (env : Env) (w : World) (p : WastePickup)
    → (Pickups.create o env w).0 ≡ ok p
    → (p ≡ record o {
      id = (seen env w).next_id;
      pickup_date = none;
      created_at = (env w.calls).now;
      updated_at = (env w.calls).now;
    })
      × (find (seen env w).next_id (Pickups.create o env w).1.db.pickups ≡ some p)
unfolding Pickups.create
created_row o env w p e =
    let answered = or_err-ok Pickups.map_pickup_create_err (query (insert_pickup o) env w).0 p e in
    let (stored, wrote) = query-done (insert_pickup o) env w p answered in
    let (_, it, at_p) = inserted_row o (env w.calls).now (seen env w) p stored in
    (it, ap (λ (d : Db). find (seen env w).next_id d.pickups) wrote ∙ at_p)

module _ (env : Env) (rely : Rely env) where
  checked-Legal : (h : Uuid) (w : World) → Keeps w (has_pending_payment_for_household h env w)
  unfolding has_pending_payment_for_household
  checked-Legal h w = query-Legal env rely (select_from _) w (Legal-refl _)

  abbrev Created : CreatePickupRequest → World → World → WastePickup → Type 0
  Created req w w' p =
      (find p.id w'.db.pickups ≡ some p)
      × (find p.id w.db.pickups ≡ none)
      × (p.status ≡ PickupStatus.pending)
      × (p.pickup_date ≡ none)
      × (p.household_id ≡ req.household_id)
      × (p.type ≡ req.type)
      × (p.safety_check ≡ req.safety_check)

  -- `Create` without an error adds the row that it returns: under a new key, pending and without a
  -- date, with the household, the type and the flag of the request.
  pub pickup_create_ok :
      (req : CreatePickupRequest) (w : World) (p : WastePickup)
      → Inv w.db
      → (create req env w).0 ≡ ok p
      → (find p.id (create req env w).1.db.pickups ≡ some p)
        × (find p.id w.db.pickups ≡ none)
        × (p.status ≡ PickupStatus.pending)
        × (p.pickup_date ≡ none)
        × (p.household_id ≡ req.household_id)
        × (p.type ≡ req.type)
        × (p.safety_check ≡ req.safety_check)
  unfolding create
  pickup_create_ok req w p v =
      elim (Result-cases (has_pending_payment_for_household req.household_id env w).0) [
        | inr (x, e) ↦ rw (e, ◌>>=◌) (λ k. absurd (cc k))
        | inl (busy, e) ↦
            rw (e, ◌>>=◌)
              (elim (Bool-cases busy) [
                | inl b ↦ rw b (λ k. absurd (cc k))
                | inr b ↦
                    rw b
                      (elim (Result-cases
                        (Pickups.create (new_pickup req) env
                          (has_pending_payment_for_household req.household_id env w).1).0) [
                            | inr (x, f) ↦ rw (f, ◌>>=◌) (λ k. absurd (cc k))
                            | inl (o, f) ↦
                                rw (f, ◌>>=◌)
                                  (λ k.
                                    let same : o ≡ p = cc k in
                                    let u : World =
                                      (has_pending_payment_for_household req.household_id env
                                        w).1 in
                                    let (it, at_o) = created_row (new_pickup req) env u o f in
                                    let (v', ev) = checked-Legal req.household_id w v in
                                    let key : o.id ≡ (seen env u).next_id = ap (λ x. x.id) it in
                                    subst (Created req w (Pickups.create (new_pickup req) env u).1)
                                      same
                                      (unfold new_pickup in
                                        (
                                          ap
                                                (λ (n : ℕ).
                                                  find n
                                                    (Pickups.create (new_pickup req) env
                                                      u).1.db.pickups)
                                                key
                                              ∙ at_o,
                                          find_above o.id w.db.next_id w.db.pickups v.pickup_keys (
                                              omega (
                                                arith,
                                                key,
                                                ev.supply,
                                                (rely u.calls u.db v').1.supply,
                                              )),
                                          ap (λ x. x.status) it,
                                          ap (λ x. x.pickup_date) it,
                                          ap (λ x. x.household_id) it,
                                          ap (λ x. x.type) it,
                                          ap (λ x. x.safety_check) it,
                                        )))
                          ])
              ])
      ]
