-- ===== src/Database/Integrity/Households.antt =====
-- Legality of what the program writes to households: the INSERT, and the DELETE that cascades.
use community_waste_collecti.Base.{
  ℕ, suc, ◌≡◌, ◌∙◌, ap, subst, inl, inr, Bool, false, ◌∷◌, some, arith, some_unique, Option-cases,
}
use community_waste_collecti.Table.{find, delete, Below}
use community_waste_collecti.Table.Laws.{Below-mono, select-Below, find-key}
use community_waste_collecti.Table.Found.{inserted_to, deleted_from, deleted_to}
use community_waste_collecti.Domain.{
  Household, household_row, WastePickup, pickup_row, Payment, payment_row,
}
use community_waste_collecti.Database.Effects.{Db}
use community_waste_collecti.Database.Integrity.{
  Settled, PickupOk, PaymentOk, Inv, PickupBecomes-refl, PaymentBecomes-refl, PickupStep,
  PickupStep-refl, PaymentStep, PaymentStep-refl, Evolves,
}

abbrev pub inserted : Household → Db → Db
inserted h d = record d { households = h ∷ d.households; next_id = suc d.next_id }

module _ (h : Household) (d : Db) (v : Inv d) (fresh : h.id ≡ d.next_id) where
  Below-new : Below h.id d.households
  Below-new = rw fresh v.household_keys

  pub insert_household-Legal : Inv (inserted h d) × Evolves d (inserted h d)
  insert_household-Legal = (
    record {
      household_keys = (rw fresh (omega arith), Below-new);
      pickup_keys = Below-mono d.pickups (omega arith) v.pickup_keys;
      payment_keys = Below-mono d.payments (omega arith) v.payment_keys;
      pickups_ok = λ i p e.
          let k = v.pickups_ok i p e in
          let (o, found) = k.household in
          record {
            household = (o, inserted_to h p.household_id d.households Below-new found);
            safe = k.safe;
            settled = k.settled;
          };
      payments_ok = λ i q e.
          let k = v.payments_ok i q e in
          let (o, found) = k.household in
          record {
            household = (o, inserted_to h q.household_id d.households Below-new found);
            pickup = k.pickup;
            receipt = k.receipt;
            unpaid = k.unpaid;
          };
      one_payment = v.one_payment;
      one_pending = v.one_pending;
    },
    record {
      supply = omega arith;
      pickups = λ i l. PickupStep-refl (find i d.pickups);
      payments = λ i l. PaymentStep-refl (find i d.payments);
    },
  )

abbrev pub after : (Household → Bool) → (WastePickup → Bool) → (Payment → Bool) → Db → Db
after gone dropped cut d = record d {
  households = delete gone d.households;
  pickups = delete dropped d.pickups;
  payments = delete cut d.payments;
}

-- The three WHERE clauses of a cascade: a row that stays has what it refers to.
module _ (gone : Household → Bool) (dropped : WastePickup → Bool) (cut : Payment → Bool) (d : Db)
    (v : Inv d)
    (keeps_owner : (p : WastePickup) (h : Household)
      → dropped p ≡ false
      → h.id ≡ p.household_id
      → gone h ≡ false)
    (keeps_payer : (q : Payment) (h : Household)
      → cut q ≡ false
      → h.id ≡ q.household_id
      → gone h ≡ false)
    (keeps_pickup : (q : Payment) (p : WastePickup)
      → cut q ≡ false
      → find q.waste_id d.pickups ≡ some p
      → dropped p ≡ false)
    (keeps_payment : (q : Payment) (p : WastePickup)
      → dropped p ≡ false
      → find q.waste_id d.pickups ≡ some p
      → p.household_id ≡ q.household_id
      → cut q ≡ false) where
  abbrev rest : Db
  rest = after gone dropped cut d

  settled_after :
      (i : ℕ) (p : WastePickup)
      → find i d.pickups ≡ some p
      → dropped p ≡ false
      → Settled d p
      → Settled rest p
  settled_after i p found kept (j, q, paid_by, same) =
      let (p', found', owner, amount) = (v.payments_ok j q paid_by).pickup in
      let at_p : find q.waste_id d.pickups ≡ some p =
        ap (λ (k : ℕ). find k d.pickups) (same ∙ find-key i p d.pickups found) ∙ found in
      let same_p : p' ≡ p = some_unique found' at_p in
      (
        j,
        q,
        deleted_to cut j d.next_id d.payments v.payment_keys paid_by (
            keeps_payment q p kept at_p
              (subst (λ t. t.household_id ≡ q.household_id) same_p owner)),
        same,
      )

  PickupOk-after :
      (i : ℕ) (p : WastePickup) → find i (delete dropped d.pickups) ≡ some p → PickupOk rest p
  PickupOk-after i p e =
      let (found, kept) = deleted_from dropped i d.next_id d.pickups v.pickup_keys e in
      let k = v.pickups_ok i p found in
      let (h, owner) = k.household in
      record {
        household = (
          h,
          deleted_to gone p.household_id d.next_id d.households v.household_keys owner
              (keeps_owner p h kept (find-key p.household_id h d.households owner)),
        );
        safe = k.safe;
        settled = λ c. settled_after i p found kept (k.settled c);
      }

  PaymentOk-after :
      (i : ℕ) (q : Payment) → find i (delete cut d.payments) ≡ some q → PaymentOk rest q
  PaymentOk-after i q e =
      let (found, kept) = deleted_from cut i d.next_id d.payments v.payment_keys e in
      let k = v.payments_ok i q found in
      let (h, owner) = k.household in
      let (p, at_p, same, amount) = k.pickup in
      record {
        household = (
          h,
          deleted_to gone q.household_id d.next_id d.households v.household_keys owner
              (keeps_payer q h kept (find-key q.household_id h d.households owner)),
        );
        pickup = (
          p,
          deleted_to dropped q.waste_id d.next_id d.pickups v.pickup_keys at_p
              (keeps_pickup q p kept at_p),
          same,
          amount,
        );
        receipt = k.receipt;
        unpaid = k.unpaid;
      }

  old_payment :
      (i : ℕ) (q : Payment) → find i (delete cut d.payments) ≡ some q → find i d.payments ≡ some q
  old_payment i q e = (deleted_from cut i d.next_id d.payments v.payment_keys e).0

  PickupStep-delete : (i : ℕ) → PickupStep (find i d.pickups) (find i (delete dropped d.pickups))
  PickupStep-delete i = elim (Option-cases (find i (delete dropped d.pickups))) [
    | inl none_left ↦ rw none_left tt
    | inr (p, e) ↦
        rw (e, (deleted_from dropped i d.next_id d.pickups v.pickup_keys e).0)
          (PickupBecomes-refl p)
  ]

  PaymentStep-delete : (i : ℕ) → PaymentStep (find i d.payments) (find i (delete cut d.payments))
  PaymentStep-delete i = elim (Option-cases (find i (delete cut d.payments))) [
    | inl none_left ↦ rw none_left tt
    | inr (q, e) ↦ rw (e, old_payment i q e) (PaymentBecomes-refl q)
  ]

  pub delete-Legal : Inv rest × Evolves d rest
  unfolding delete
  delete-Legal = (
    record {
      household_keys = select-Below _ d.next_id d.households v.household_keys;
      pickup_keys = select-Below _ d.next_id d.pickups v.pickup_keys;
      payment_keys = select-Below _ d.next_id d.payments v.payment_keys;
      pickups_ok = PickupOk-after;
      payments_ok = PaymentOk-after;
      one_payment = λ i j q r e f. v.one_payment i j q r (old_payment i q e) (old_payment j r f);
      one_pending = λ i j q r e f. v.one_pending i j q r (old_payment i q e) (old_payment j r f);
    },
    record {
      supply = omega arith;
      pickups = λ i l. PickupStep-delete i;
      payments = λ i l. PaymentStep-delete i;
    },
  )
