-- ===== src/Repository/Payments/Legality.antt =====
-- When the statements of internal/repository/payment.go are legal.
use community_waste_collecti.Base.{
  ◌≡◌, refl, inl, inr, true, false, none, some, arith, Bool-cases, &&-eq-true, nat_eq, ltb, ◌⊎◌,
  ◌≢◌, is_some-eq-true,
}
use community_waste_collecti.Table.{find, exists}
use community_waste_collecti.Table.Laws.{not-exists-find}
use community_waste_collecti.Domain.{
  Uuid, Time, Household, household_row, WastePickup, pickup_row, Payment, payment_row,
  PaymentStatus, payment_status_eq, payment_amounts, ProofUrl,
}
use community_waste_collecti.Database.{
  Db, done, failed_with, DbError, check_violation, unique_violation, foreign_key_violation,
}
use community_waste_collecti.Database.Integrity.{Legal, Legal-refl}
use community_waste_collecti.Database.Integrity.Payments.{
  inserted, pay-Legal, insert_payment-Legal as insertion-Legal,
}
use community_waste_collecti.Repository.Pickups.{is_pending_of}
use community_waste_collecti.Repository.Payments.{
  insert_payment, confirm_sql, has_waste, violates_unique, references_exist,
}

pub confirm_sql-Legal :
    (id : Uuid) (url : ProofUrl) (paid_at now : Time) (d : Db)
    → Legal d (confirm_sql id url paid_at now d).1
unfolding confirm_sql
confirm_sql-Legal id url paid_at now d v =
    pay-Legal _ _ d v
      (λ q. record {
        same_id = refl;
        same_household = refl;
        same_waste = refl;
        same_amount = refl;
        is_paid = refl;
        proof = refl;
        date = refl;
      })
      (λ q hit. (payment_status_eq.equals_iff _ _).0 (&&-eq-true _ _ hit).1)

-- The row that an INSERT adds.
abbrev pub stored : Payment → Time → Db → Payment
stored q now d = record q {
  id = d.next_id;
  payment_date = none;
  proof_file_url = none;
  created_at = now;
  updated_at = now;
}

-- The amount is that of the pickup, and both are of one household.
abbrev pub Matches : Payment → Db → Type 0
Matches q d =
    (p : WastePickup)
    → find q.waste_id d.pickups ≡ some p
    → (p.household_id ≡ q.household_id) × (q.amount ≡ payment_amounts p.type)

not_waste_of : (w : Uuid) (r : Payment) → has_waste w r ≡ false → r.waste_id ≢ w
unfolding has_waste
not_waste_of w r e same = ground arith

not_pending_of :
    (h : Uuid) (r : Payment)
    → is_pending_of h r ≡ false
    → r.household_id ≡ h
    → r.status ≢ PaymentStatus.pending
unfolding is_pending_of
not_pending_of h r e same now = ground arith

module _ (q : Payment) (now : Time) (d : Db) (new : q.status ≡ PaymentStatus.pending) where
  -- what the constraints that an INSERT passes mean
  no_other :
      violates_unique q d ≡ false
      → (exists (has_waste q.waste_id) d.payments ≡ false)
        × (exists (is_pending_of q.household_id) d.payments ≡ false)
  unfolding violates_unique
  no_other e = elim (Bool-cases (exists (has_waste q.waste_id) d.payments)) [
    | inl twice ↦ absurd (ground (arith, twice))
    | inr once ↦ (once, ground (arith, once, new))
  ]

  parents :
      references_exist q d ≡ true
      → ((h : Household) × (find q.household_id d.households ≡ some h))
        × ((p : WastePickup) × (find q.waste_id d.pickups ≡ some p))
  unfolding references_exist
  parents e = let (a, b) = &&-eq-true _ _ e in (is_some-eq-true _ a, is_some-eq-true _ b)

  pub stored-Legal :
      violates_unique q d ≡ false
      → references_exist q d ≡ true
      → Matches q d
      → Legal d (inserted (stored q now d) d)
  stored-Legal free known matches v =
      let (once, alone) = no_other free in
      let ((h, owner), (p, at_p)) = parents known in
      insertion-Legal (stored q now d) d v refl
        (record {
          household = (h, owner);
          pickup = (p, at_p, (matches p at_p).0, (matches p at_p).1);
          receipt = λ e. absurd (ground (arith, e, new));
          unpaid = λ e. (refl, refl);
        })
        (λ i r found.
          not_waste_of q.waste_id r
            (not-exists-find (has_waste q.waste_id) i r d.payments once found))
        (λ i r found.
          not_pending_of q.household_id r
            (not-exists-find (is_pending_of q.household_id) i r d.payments alone found))

  -- The INSERT fails and changes nothing, or passes every constraint and adds the row.
  pub insert_payment-cases :
      ((e : DbError) × (insert_payment q now d ≡ (failed_with e, d)))
      ⊎ ((violates_unique q d ≡ false)
          × (references_exist q d ≡ true)
          × (insert_payment q now d ≡ (done (stored q now d), inserted (stored q now d) d)))
  unfolding insert_payment
  insert_payment-cases = elim (Bool-cases (ltb 0 q.amount)) [
    | inr zero_amount ↦ inl (check_violation, rw zero_amount)
    | inl a ↦ elim (Bool-cases (violates_unique q d)) [
      | inl taken ↦ inl (unique_violation, rw (a, taken))
      | inr free ↦ elim (Bool-cases (references_exist q d)) [
        | inl known ↦ inr (free, known, rw (a, free, known))
        | inr unknown ↦ inl (foreign_key_violation, rw (a, free, unknown))
      ]
    ]
  ]

  pub insert_payment-Legal : Matches q d → Legal d (insert_payment q now d).1
  insert_payment-Legal matches = elim insert_payment-cases [
    | inl (e, same) ↦ rw same (Legal-refl d)
    | inr (free, known, same) ↦ rw same (stored-Legal free known matches)
  ]
