-- ===== src/Service/Pickups/Completion.antt =====
-- Complete of internal/service/pickup.go: the transaction that completes a pickup and adds its
-- payment (BR-05).
use mathlib.Core.Path.{subst₂}
use community_waste_collecti.Base.{
  ℕ, ◌≡◌, refl, sym, ◌∙◌, ap, inl, inr, ◌⊎◌, true, false, some, is_some, ◌==◌, ◌&&◌, nat_eq,
  Bool-cases, is_some-eq-true, &&-eq-true,
}
use community_waste_collecti.Table.{find}
use community_waste_collecti.Table.Laws.{find-lt, find-key}
use community_waste_collecti.Table.Found.{updated_from, find-head}
use community_waste_collecti.Domain.{
  Uuid, Time, WastePickup, pickup_row, scheduled, completed, pickup_status_eq, Payment, payment_row,
  payment_amounts, household_row, Error, ok, err, Result-cases,
}
use community_waste_collecti.Database.{Db, Env, World, ◌>>=◌, transaction, Outcome, or_err, then_tx}
use community_waste_collecti.Database.Integrity.{Inv, PickupStep, Legal, Rely, Legal-trans}
use community_waste_collecti.Database.Integrity.Payments.{inserted}
use community_waste_collecti.Database.Calls.{transaction-Legal}
use community_waste_collecti.Repository.Pickups.{update_status_sql, prior, some_row}
use community_waste_collecti.Repository.Pickups
use community_waste_collecti.Repository.Pickups.Legality.{complete_sql-Legal}
use community_waste_collecti.Repository.Payments.{violates_unique, references_exist, insert_payment}
use community_waste_collecti.Repository.Payments
use community_waste_collecti.Repository.Payments.Legality.{
  stored, stored-Legal, insert_payment-cases,
}
use community_waste_collecti.Service.Pickups.{complete, complete_tx, payment_for}
use community_waste_collecti.Service.Pickups.Legality.{Keeps, find_by_id-Legal, find_by_id-found}

-- The tables after the UPDATE of the transaction.
abbrev pub marked : Uuid → Time → Db → Db
marked id now d = (update_status_sql id completed now d).1

module _ (id : Uuid) (p : WastePickup) (now : Time) (d : Db) where
  complete_tx-then :
      some_row (update_status_sql id completed now d).0 ≡ ok tt
      → complete_tx id p now d ≡ Payments.create_with_tx (payment_for p) now (marked id now d)
  unfolding complete_tx Pickups.update_status_tx
  complete_tx-then x = rw (x, then_tx)

  create_with_tx-after :
      {r : Outcome Payment × Db}
      → insert_payment (payment_for p) now (marked id now d) ≡ r
      → Payments.create_with_tx (payment_for p) now (marked id now d)
        ≡ (or_err Payments.map_payment_create_err r.0, r.1)
  unfolding Payments.create_with_tx
  create_with_tx-after y =
      ap (λ (s : Outcome Payment × Db). (or_err Payments.map_payment_create_err s.0, s.1)) y

  -- The transaction fails, or both its statements took effect.
  pub complete_tx-cases :
      ((e : Error) × ((complete_tx id p now d).0 ≡ err e))
      ⊎ ((some_row (update_status_sql id completed now d).0 ≡ ok tt)
          × (violates_unique (payment_for p) (marked id now d) ≡ false)
          × (references_exist (payment_for p) (marked id now d) ≡ true)
          × (complete_tx id p now d ≡ (
            ok (stored (payment_for p) now (marked id now d)),
            inserted (stored (payment_for p) now (marked id now d)) (marked id now d),
          )))
  unfolding complete_tx Pickups.update_status_tx
  complete_tx-cases = elim (Result-cases (some_row (update_status_sql id completed now d).0)) [
    | inr (e, x) ↦ inl (e, rw (x, then_tx))
    | inl (u, x) ↦ elim (insert_payment-cases (payment_for p) now (marked id now d) refl) [
      | inl (e, y) ↦ inl (_, ap (λ s. s.0) (complete_tx-then x ∙ create_with_tx-after y))
      | inr (free, known, y) ↦ inr (x, free, known, complete_tx-then x ∙ create_with_tx-after y)
    ]
  ]

  -- The pickup is the one that the service has read.
  abbrev pub IsOf : Type 0
  IsOf =
      (p.id ≡ id)
      × ((q : WastePickup)
          → find id d.pickups ≡ some q
          → (p.household_id ≡ q.household_id) × (p.type ≡ q.type))

  -- The constraints see the same rows before and after the UPDATE.
  unique_before :
      violates_unique (payment_for p) (marked id now d) ≡ violates_unique (payment_for p) d
  unfolding violates_unique update_status_sql
  unique_before = refl

  references_before :
      references_exist (payment_for p) (marked id now d) ≡ true
      → references_exist (payment_for p) d ≡ true
  unfolding references_exist update_status_sql payment_for
  references_before e =
      let (a, b) = &&-eq-true (is_some (find p.household_id d.households)) _ e in
      let (q, found) = is_some-eq-true _ b in
      let (q', before, same) =
        updated_from (λ x. x.id == id && prior completed x.status)
          (λ x. record x { status = completed; updated_at = now }) p.id d.pickups (λ x. refl)
          found in
      rw (a, before)

  complete_tx-change :
      IsOf
      → violates_unique (payment_for p) (marked id now d) ≡ false
      → references_exist (payment_for p) (marked id now d) ≡ true
      → Legal d (inserted (stored (payment_for p) now (marked id now d)) (marked id now d))
  unfolding update_status_sql payment_for
  complete_tx-change (own, same) free known =
      Legal-trans
        (stored-Legal (payment_for p) now d refl (sym unique_before ∙ free)
          (references_before known)
          (λ q found.
            let (a, b) = same q (ap (λ (k : ℕ). find k d.pickups) (sym own) ∙ found) in
            (sym a, ap payment_amounts b)))
        (complete_sql-Legal id now (inserted (stored (payment_for p) now d) d) (λ q found. (
          d.next_id,
          stored (payment_for p) now d,
          find-head _ d.payments,
          own ∙ sym (find-key id q d.pickups found),
        )))

  pub complete_tx-Legal :
      IsOf → (a : Payment) → (complete_tx id p now d).0 ≡ ok a → Legal d (complete_tx id p now d).1
  complete_tx-Legal known a e = elim complete_tx-cases [
    | inl (x, f) ↦ absurd (cc (e, f))
    | inr (u, free, refs, f) ↦ rw f (complete_tx-change known free refs)
  ]

module _ (env : Env) (rely : Rely env) where
  -- What was read of a pickup is still so at the transaction.
  still_of :
      (id : Uuid) (d : Db) (n : ℕ) (p : WastePickup)
      → Inv d
      → find id d.pickups ≡ some p
      → IsOf id p (env n).now ((env n).others d)
  still_of id d n p v found = (
    find-key id p d.pickups found,
    λ q later.
        let (w, ev) = rely n d v in
        let step = ev.pickups id (find-lt id d.next_id p d.pickups v.pickup_keys found) in
        let b = subst₂ PickupStep found later step in (sym b.same_household, sym b.same_type),
  )

  pub complete-Legal : (id : Uuid) (w : World) → Keeps w (complete id env w)
  unfolding complete
  complete-Legal id w = elim (Result-cases (Pickups.find_by_id id env w).0) [
    | inr (x, e) ↦ rw (e, ◌>>=◌) (find_by_id-Legal env rely id w)
    | inl (p, e) ↦
        let w' = (Pickups.find_by_id id env w).1 in
        let both : Legal w.db (transaction (complete_tx id p) env w').1.db = λ v.
          let (v', ev) = find_by_id-Legal env rely id w v in
          Legal-trans (find_by_id-Legal env rely id w)
            (transaction-Legal env rely (complete_tx id p) w' (
              complete_tx-Legal id p _ _
                (still_of id w'.db w'.calls p v' (find_by_id-found env rely id w p e))))
            v in
        rw (e, ◌>>=◌)
          (elim (Bool-cases (p.status == scheduled)) [
            | inr b ↦ rw b (find_by_id-Legal env rely id w)
            | inl b ↦ rw b (elim (Result-cases (transaction (complete_tx id p) env w').0) [
              | inr (x, f) ↦ rw (f, ◌>>=◌) both
              | inl (q, f) ↦ rw (f, ◌>>=◌) both
            ])
          ])
  ]
