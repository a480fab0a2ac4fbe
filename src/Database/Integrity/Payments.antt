-- ===== src/Database/Integrity/Payments.antt =====
-- Legality of what the program writes to payments: the INSERT of a pending row, and the UPDATE that
-- marks pending rows as paid.
use community_waste_collecti.Base.{
  ℕ, suc, ◌<◌, ◌≡◌, ◌≢◌, refl, sym, ◌∙◌, ap, subst, inl, inr, ◌⊎◌, Bool, true, ◌∷◌, some, arith,
  is_some, Bool-cases, Option-cases,
}
use community_waste_collecti.Table.{find, set_if, update, Below}
use community_waste_collecti.Table.Laws.{Below-mono, update-Below}
use community_waste_collecti.Table.Found.{updated_from, updated_to, inserted_from, inserted_to}
use community_waste_collecti.Domain.{
  household_row, WastePickup, pickup_row, Payment, payment_row, PaymentStatus, paid,
}
use community_waste_collecti.Database.Effects.{Db}
use community_waste_collecti.Database.Integrity.{
  PickupOk, PaymentOk, Inv, PaymentBecomes, PaymentBecomes-refl, PickupStep-refl, PaymentStep,
  Evolves,
}

abbrev pub inserted : Payment → Db → Db
inserted q d = record d { payments = q ∷ d.payments; next_id = suc d.next_id }

module _ (q : Payment) (d : Db) (v : Inv d) (fresh : q.id ≡ d.next_id) (new_ok : PaymentOk d q)
    (one : (i : ℕ) (r : Payment) → find i d.payments ≡ some r → r.waste_id ≢ q.waste_id)
    (alone : (i : ℕ) (r : Payment)
      → find i d.payments ≡ some r
      → r.household_id ≡ q.household_id
      → r.status ≢ PaymentStatus.pending) where
  Below-new : Below q.id d.payments
  Below-new = rw fresh v.payment_keys

  PickupOk-inserted :
      (i : ℕ) (p : WastePickup) → find i d.pickups ≡ some p → PickupOk (inserted q d) p
  PickupOk-inserted i p e =
      let k = v.pickups_ok i p e in
      record {
        household = k.household;
        safe = k.safe;
        settled = λ c.
            let (j, r, found, same) = k.settled c in
            (j, r, inserted_to q j d.payments Below-new found, same);
      }

  PaymentOk-inserted :
      (i : ℕ) (r : Payment) → find i (q ∷ d.payments) ≡ some r → PaymentOk (inserted q d) r
  PaymentOk-inserted i r e = elim (inserted_from q i d.payments e) [
    | inl (same, at_end) ↦ rw same (record {
      household = new_ok.household;
      pickup = new_ok.pickup;
      receipt = new_ok.receipt;
      unpaid = new_ok.unpaid;
    })
    | inr old ↦
        let k = v.payments_ok i r old in
        record {
          household = k.household;
          pickup = k.pickup;
          receipt = k.receipt;
          unpaid = k.unpaid;
        }
  ]

  one_payment_inserted :
      (i j : ℕ) (r s : Payment)
      → find i (q ∷ d.payments) ≡ some r
      → find j (q ∷ d.payments) ≡ some s
      → r.waste_id ≡ s.waste_id
      → i ≡ j
  one_payment_inserted i j r s e f same = elim (inserted_from q i d.payments e) [
    | inl (x, k) ↦ elim (inserted_from q j d.payments f) [
      | inl (y, l) ↦ k ∙ sym l
      | inr g ↦ absurd (one j s g (sym same ∙ ap (λ t. t.waste_id) x))
    ]
    | inr g ↦ elim (inserted_from q j d.payments f) [
      | inl (y, l) ↦ absurd (one i r g (same ∙ ap (λ t. t.waste_id) y))
      | inr h ↦ v.one_payment i j r s g h same
    ]
  ]

  one_pending_inserted :
      (i j : ℕ) (r s : Payment)
      → find i (q ∷ d.payments) ≡ some r
      → find j (q ∷ d.payments) ≡ some s
      → r.household_id ≡ s.household_id
      → r.status ≡ PaymentStatus.pending
      → s.status ≡ PaymentStatus.pending
      → i ≡ j
  one_pending_inserted i j r s e f same a b = elim (inserted_from q i d.payments e) [
    | inl (x, k) ↦ elim (inserted_from q j d.payments f) [
      | inl (y, l) ↦ k ∙ sym l
      | inr g ↦ absurd (alone j s g (sym same ∙ ap (λ t. t.household_id) x) b)
    ]
    | inr g ↦ elim (inserted_from q j d.payments f) [
      | inl (y, l) ↦ absurd (alone i r g (same ∙ ap (λ t. t.household_id) y) a)
      | inr h ↦ v.one_pending i j r s g h same a b
    ]
  ]

  PaymentStep-insert :
      (i : ℕ) → i < d.next_id → PaymentStep (find i d.payments) (find i (q ∷ d.payments))
  PaymentStep-insert i h = elim (Option-cases (find i (q ∷ d.payments))) [
    | inl gone ↦ rw gone tt
    | inr (r, e) ↦ elim (inserted_from q i d.payments e) [
      | inl (same, at_end) ↦ absurd (omega (arith, at_end, fresh, h))
      | inr old ↦ rw (e, old) (PaymentBecomes-refl r)
    ]
  ]

  pub insert_payment-Legal : Inv (inserted q d) × Evolves d (inserted q d)
  insert_payment-Legal = (
    record {
      household_keys = Below-mono d.households (omega arith) v.household_keys;
      pickup_keys = Below-mono d.pickups (omega arith) v.pickup_keys;
      payment_keys = (rw fresh (omega arith), Below-new);
      pickups_ok = PickupOk-inserted;
      payments_ok = PaymentOk-inserted;
      one_payment = one_payment_inserted;
      one_pending = one_pending_inserted;
    },
    record {
      supply = omega arith;
      pickups = λ i h. PickupStep-refl (find i d.pickups);
      payments = PaymentStep-insert;
    },
  )

-- What the UPDATE does to a row that it meets.
pub record Pays (q r : Payment) : Type 0 where
  pub same_id : r.id ≡ q.id
  pub same_household : r.household_id ≡ q.household_id
  pub same_waste : r.waste_id ≡ q.waste_id
  pub same_amount : r.amount ≡ q.amount
  pub is_paid : r.status ≡ paid
  pub proof : is_some r.proof_file_url ≡ true
  pub date : is_some r.payment_date ≡ true

abbrev pub after : (Payment → Bool) → (Payment → Payment) → Db → Db
after test change d = record d { payments = update test change d.payments }

module _ (test : Payment → Bool) (change : Payment → Payment) (d : Db) (v : Inv d)
    (pays : (q : Payment) → Pays q (change q))
    (only_pending : (q : Payment) → test q ≡ true → q.status ≡ PaymentStatus.pending) where
  keeps : (q : Payment) → (change q).id ≡ q.id
  keeps q = (pays q).same_id

  abbrev Paid : Payment → Payment → Type 0
  Paid q r = (r ≡ q) ⊎ ((q.status ≡ PaymentStatus.pending) × Pays q r)

  found-Change : (q : Payment) → Paid q (set_if test change q)
  found-Change q = elim (Bool-cases (test q)) [
    | inl hit ↦ rw hit (inr (only_pending q hit, pays q))
    | inr miss ↦ rw miss (inl refl)
  ]

  payments_after :
      (i : ℕ) (r : Payment)
      → find i (update test change d.payments) ≡ some r
      → (q : Payment) × (find i d.payments ≡ some q) × Paid q r
  payments_after i r e =
      let (q, found, same) = updated_from test change i d.payments keeps e in
      (q, found, subst (Paid q) (sym same) (found-Change q))

  becomes : (q r : Payment) → Paid q r → PaymentBecomes q r
  becomes q r (inl same) = subst (PaymentBecomes q) (sym same) (PaymentBecomes-refl q)
  becomes q r (inr (was, p)) = record {
    same_household = p.same_household;
    same_waste = p.same_waste;
    same_amount = p.same_amount;
    lifecycle = inr (was, p.is_paid);
  }

  still_pending :
      (q r : Payment)
      → Paid q r
      → r.status ≡ PaymentStatus.pending
      → q.status ≡ PaymentStatus.pending
  still_pending q r (inl same) e = ground arith
  still_pending q r (inr (was, p)) e = was

  PickupOk-after :
      (i : ℕ) (p : WastePickup) → find i d.pickups ≡ some p → PickupOk (after test change d) p
  PickupOk-after i p e =
      let k = v.pickups_ok i p e in
      record {
        household = k.household;
        safe = k.safe;
        settled = λ c.
            let (j, q, found, same) = k.settled c in
            (
              j,
              set_if test change q,
              updated_to test change j d.payments keeps found,
              (becomes q _ (found-Change q)).same_waste ∙ same,
            );
      }

  PaymentOk-Paid : (q r : Payment) → PaymentOk d q → Paid q r → PaymentOk (after test change d) r
  PaymentOk-Paid q r k (inl same) = rw same (record {
    household = k.household;
    pickup = k.pickup;
    receipt = k.receipt;
    unpaid = k.unpaid;
  })
  PaymentOk-Paid q r k (inr (was, p)) = record {
    household = rw p.same_household k.household;
    pickup = rw (p.same_household, p.same_waste, p.same_amount) k.pickup;
    receipt = λ e. (p.proof, p.date);
    unpaid = λ e. absurd (ground (arith, e, p.is_paid));
  }

  PaymentOk-after :
      (i : ℕ) (r : Payment)
      → find i (update test change d.payments) ≡ some r
      → PaymentOk (after test change d) r
  PaymentOk-after i r e =
      let (q, found, p) = payments_after i r e in PaymentOk-Paid q r (v.payments_ok i q found) p

  PaymentStep-after :
      (i : ℕ) → PaymentStep (find i d.payments) (find i (update test change d.payments))
  PaymentStep-after i = elim (Option-cases (find i (update test change d.payments))) [
    | inl gone ↦ rw gone tt
    | inr (r, e) ↦ let (q, found, p) = payments_after i r e in rw (e, found) (becomes q r p)
  ]

  pub pay-Legal : Inv (after test change d) × Evolves d (after test change d)
  pay-Legal = (
    record {
      household_keys = v.household_keys;
      pickup_keys = v.pickup_keys;
      payment_keys = update-Below test change d.next_id d.payments keeps v.payment_keys;
      pickups_ok = PickupOk-after;
      payments_ok = PaymentOk-after;
      one_payment = λ i j r s e f same.
          let (q, a, p) = payments_after i r e in
          let (t, b, u) = payments_after j s f in
          v.one_payment i j q t a b
            (sym (becomes q r p).same_waste ∙ same ∙ (becomes t s u).same_waste);
      one_pending = λ i j r s e f same x y.
          let (q, a, p) = payments_after i r e in
          let (t, b, u) = payments_after j s f in
          v.one_pending i j q t a b
            (sym (becomes q r p).same_household ∙ same ∙ (becomes t s u).same_household)
            (still_pending q r p x) (still_pending t s u y);
    },
    record {
      supply = omega arith;
      pickups = λ i h. PickupStep-refl (find i d.pickups);
      payments = λ i h. PaymentStep-after i;
    },
  )
