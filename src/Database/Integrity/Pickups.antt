-- ===== src/Database/Integrity/Pickups.antt =====
-- Legality of what the program writes to waste_pickups: UPDATEs and INSERTs, whatever they set.
use community_waste_collecti.Base.{
  ℕ, suc, ◌<◌, ◌≡◌, sym, ◌∙◌, ap, subst, inl, inr, Bool, true, ◌∷◌, some, arith, Bool-cases,
  Option-cases,
}
use community_waste_collecti.Table.{find, set_if, update, Below}
use community_waste_collecti.Table.Laws.{Below-mono, update-Below}
use community_waste_collecti.Table.Found.{updated_from, updated_to, inserted_from, inserted_to}
use community_waste_collecti.Domain.{
  Household, household_row, WastePickup, pickup_row, electronic, PickupStatus, completed, Payment,
  payment_row,
}
use community_waste_collecti.Database.Effects.{Db}
use community_waste_collecti.Database.Integrity.{
  IsActive, Settled, PickupOk, PaymentOk, Inv, PickupBecomes, PickupBecomes-refl, PickupStep,
  PaymentStep-refl, Evolves,
}

-- What an UPDATE of one row may do: keep its identity, follow the lifecycle, and respect BR-03 and
-- BR-05.
pub record Change (d : Db) (p q : WastePickup) : Type 0 where
  pub becomes : PickupBecomes p q
  pub safe : q.type ≡ electronic → IsActive q.status → q.safety_check ≡ true
  pub settled : q.status ≡ completed → Settled d q

abbrev pub after : (WastePickup → Bool) → (WastePickup → WastePickup) → Db → Db
after test change d = record d { pickups = update test change d.pickups }

abbrev pub inserted : WastePickup → Db → Db
inserted p d = record d { pickups = p ∷ d.pickups; next_id = suc d.next_id }

module _ (test : WastePickup → Bool) (change : WastePickup → WastePickup) (d : Db)
    (keeps : (p : WastePickup) → (change p).id ≡ p.id) (v : Inv d)
    (changes : (i : ℕ) (p : WastePickup)
      → find i d.pickups ≡ some p
      → test p ≡ true
      → Change d p (change p)) where
  found-Change :
      (i : ℕ) (p : WastePickup) → find i d.pickups ≡ some p → Change d p (set_if test change p)
  found-Change i p e = elim (Bool-cases (test p)) [
    | inl hit ↦ rw hit (changes i p e hit)
    | inr miss ↦ rw miss (record {
      becomes = PickupBecomes-refl p;
      safe = (v.pickups_ok i p e).safe;
      settled = (v.pickups_ok i p e).settled;
    })
  ]

  pickups_after :
      (i : ℕ) (q : WastePickup)
      → find i (update test change d.pickups) ≡ some q
      → (p : WastePickup) × (find i d.pickups ≡ some p) × Change d p q
  pickups_after i q e =
      let (p, found, same) = updated_from test change i d.pickups keeps e in
      (p, found, subst (Change d p) (sym same) (found-Change i p found))

  PickupOk-after :
      (i : ℕ) (q : WastePickup)
      → find i (update test change d.pickups) ≡ some q
      → PickupOk (after test change d) q
  PickupOk-after i q e =
      let (p, found, c) = pickups_after i q e in
      let (h, owner) = (v.pickups_ok i p found).household in
      record {
        household = (h, ap (λ k. find k d.households) c.becomes.same_household ∙ owner);
        safe = c.safe;
        settled = c.settled;
      }

  PaymentOk-after :
      (i : ℕ) (r : Payment) → find i d.payments ≡ some r → PaymentOk (after test change d) r
  PaymentOk-after i r e =
      let k = v.payments_ok i r e in
      let (p, found, owner, amount) = k.pickup in
      let b = (found-Change r.waste_id p found).becomes in
      record {
        household = k.household;
        pickup = (
          set_if test change p,
          updated_to test change r.waste_id d.pickups keeps found,
          b.same_household ∙ owner,
          rw b.same_type amount,
        );
        receipt = k.receipt;
        unpaid = k.unpaid;
      }

  PickupStep-after : (i : ℕ) → PickupStep (find i d.pickups) (find i (update test change d.pickups))
  PickupStep-after i = elim (Option-cases (find i (update test change d.pickups))) [
    | inl gone ↦ rw gone tt
    | inr (q, e) ↦ let (p, found, c) = pickups_after i q e in rw (e, found) c.becomes
  ]

  pub update_pickups-Legal : Inv (after test change d) × Evolves d (after test change d)
  update_pickups-Legal = (
    record {
      household_keys = v.household_keys;
      pickup_keys = update-Below test change d.next_id d.pickups keeps v.pickup_keys;
      payment_keys = v.payment_keys;
      pickups_ok = PickupOk-after;
      payments_ok = PaymentOk-after;
      one_payment = v.one_payment;
      one_pending = v.one_pending;
    },
    record {
      supply = omega arith;
      pickups = λ i h. PickupStep-after i;
      payments = λ i h. PaymentStep-refl (find i d.payments);
    },
  )

module _ (p : WastePickup) (d : Db) (v : Inv d) (fresh : p.id ≡ d.next_id)
    (owner : (h : Household) × (find p.household_id d.households ≡ some h))
    (new : p.status ≡ PickupStatus.pending) where
  Below-new : Below p.id d.pickups
  Below-new = rw fresh v.pickup_keys

  new_ok : PickupOk (inserted p d) p
  new_ok = record {
    household = owner;
    safe = λ e a. absurd (ground (arith, new, a));
    settled = λ e. absurd (ground (arith, new, e));
  }

  PickupOk-inserted :
      (i : ℕ) (q : WastePickup) → find i (p ∷ d.pickups) ≡ some q → PickupOk (inserted p d) q
  PickupOk-inserted i q e = elim (inserted_from p i d.pickups e) [
    | inl (same, at_end) ↦ rw same new_ok
    | inr old ↦
        let k = v.pickups_ok i q old in
        record { household = k.household; safe = k.safe; settled = k.settled }
  ]

  PaymentOk-inserted :
      (i : ℕ) (r : Payment) → find i d.payments ≡ some r → PaymentOk (inserted p d) r
  PaymentOk-inserted i r e =
      let k = v.payments_ok i r e in
      let (q, found, same, amount) = k.pickup in
      record {
        household = k.household;
        pickup = (q, inserted_to p r.waste_id d.pickups Below-new found, same, amount);
        receipt = k.receipt;
        unpaid = k.unpaid;
      }

  PickupStep-insert :
      (i : ℕ) → i < d.next_id → PickupStep (find i d.pickups) (find i (p ∷ d.pickups))
  PickupStep-insert i h = elim (Option-cases (find i (p ∷ d.pickups))) [
    | inl gone ↦ rw gone tt
    | inr (q, e) ↦ elim (inserted_from p i d.pickups e) [
      | inl (same, at_end) ↦ absurd (omega (arith, at_end, fresh, h))
      | inr old ↦ rw (e, old) (PickupBecomes-refl q)
    ]
  ]

  pub insert_pickup-Legal : Inv (inserted p d) × Evolves d (inserted p d)
  insert_pickup-Legal = (
    record {
      household_keys = Below-mono d.households (omega arith) v.household_keys;
      pickup_keys = (rw fresh (omega arith), Below-new);
      payment_keys = Below-mono d.payments (omega arith) v.payment_keys;
      pickups_ok = PickupOk-inserted;
      payments_ok = PaymentOk-inserted;
      one_payment = v.one_payment;
      one_pending = v.one_pending;
    },
    record {
      supply = omega arith;
      pickups = λ i h. PickupStep-insert i h;
      payments = λ i h. PaymentStep-refl (find i d.payments);
    },
  )
