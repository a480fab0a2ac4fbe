-- ===== src/System/History.antt =====
-- The business rules over histories of the program: internal/service and internal/worker together.
use mathlib.Core.Path.{subst₂}
use community_waste_collecti.Base.{
  ℕ, ◌≡◌, sym, ◌∙◌, ap, inl, inr, List, true, some, arith, is_some, some_unique, subst, ◌⊎◌,
}
use community_waste_collecti.Table.{find}
use community_waste_collecti.Table.Laws.{find-key, find-lt}
use community_waste_collecti.Domain.{
  Uuid, WastePickup, pickup_row, electronic, completed, canceled, Payment, payment_row,
  PaymentStatus, paid, payment_amounts,
}
use community_waste_collecti.Database.{Db, Env, World}
use community_waste_collecti.Database.Integrity.{
  ◌⟶*◌, IsActive, Inv, completed_path, canceled_path, PickupBecomes, PickupStep, PaymentBecomes,
  PaymentStep, Rely,
}
use community_waste_collecti.Storage.{S3Client}
use community_waste_collecti.Worker.{OrganicCanceler}
use community_waste_collecti.System.{Command, run, empty_db, start_with}
use community_waste_collecti.System.Integrity.{run-Legal, empty_db-Inv}

module _ {Decimal : Type 0} (s3 : S3Client) (canceler : OrganicCanceler) (env : Env)
    (rely : Rely env) (cs : List (Command Decimal)) where
  abbrev finally : World → Db
  finally w = (run s3 canceler cs env w).db

  -- What the service starts from: no rows.
  finally-Inv : Inv (finally (start_with empty_db))
  finally-Inv = (run-Legal s3 canceler env rely cs (start_with empty_db) empty_db-Inv).0

  -- BR-05: after any history from empty tables, a completed pickup has a payment, of its own
  -- household and of the amount for its type.
  pub completed_has_payment :
      (i : Uuid) (p : WastePickup)
      → find i (finally (start_with empty_db)).pickups ≡ some p
      → p.status ≡ completed
      → (j : Uuid) × (q : Payment) × (find j (finally (start_with empty_db)).payments ≡ some q)
        × (q.waste_id ≡ i)
        × (q.household_id ≡ p.household_id)
        × (q.amount ≡ payment_amounts p.type)
  completed_has_payment i p found done =
      let d = finally (start_with empty_db) in
      let (j, q, paid_by, same) = (finally-Inv.pickups_ok i p found).settled done in
      let (p', at_q, owner, amount) = (finally-Inv.payments_ok j q paid_by).pickup in
      let own : q.waste_id ≡ i = same ∙ find-key i p d.pickups found in
      let it : p' ≡ p = some_unique at_q (ap (λ (k : ℕ). find k d.pickups) own ∙ found) in
      (
        j,
        q,
        paid_by,
        own,
        sym (subst (λ x. x.household_id ≡ q.household_id) it owner),
        subst (λ x. q.amount ≡ payment_amounts x.type) it amount,
      )

  -- BR-03: after any history from empty tables, an electronic pickup that is scheduled or completed
  -- has its safety check.
  pub electronic_is_safe :
      (i : Uuid) (p : WastePickup)
      → find i (finally (start_with empty_db)).pickups ≡ some p
      → p.type ≡ electronic
      → IsActive p.status
      → p.safety_check ≡ true
  electronic_is_safe i p found = (finally-Inv.pickups_ok i p found).safe

  -- After any history from empty tables, two payments of one pickup are one row.
  pub one_payment_per_pickup :
      (i j : Uuid) (q r : Payment)
      → find i (finally (start_with empty_db)).payments ≡ some q
      → find j (finally (start_with empty_db)).payments ≡ some r
      → q.waste_id ≡ r.waste_id
      → i ≡ j
  one_payment_per_pickup = finally-Inv.one_payment

  -- After any history from empty tables, two pending payments of one household are one row.
  pub one_pending_per_household :
      (i j : Uuid) (q r : Payment)
      → find i (finally (start_with empty_db)).payments ≡ some q
      → find j (finally (start_with empty_db)).payments ≡ some r
      → q.household_id ≡ r.household_id
      → q.status ≡ PaymentStatus.pending
      → r.status ≡ PaymentStatus.pending
      → i ≡ j
  one_pending_per_household = finally-Inv.one_pending

  -- BR-06: after any history from empty tables, a paid payment has its proof and its date.
  pub paid_has_receipt :
      (i : Uuid) (q : Payment)
      → find i (finally (start_with empty_db)).payments ≡ some q
      → q.status ≡ paid
      → (is_some q.proof_file_url ≡ true) × (is_some q.payment_date ≡ true)
  paid_has_receipt i q found = (finally-Inv.payments_ok i q found).receipt

  pickup_becomes :
      (w : World) (i : Uuid) (p q : WastePickup)
      → Inv w.db
      → find i w.db.pickups ≡ some p
      → find i (finally w).pickups ≡ some q
      → PickupBecomes p q
  pickup_becomes w i p q v found later =
      let (v', ev) = run-Legal s3 canceler env rely cs w v in
      let step = ev.pickups i (find-lt i w.db.next_id p w.db.pickups v.pickup_keys found) in
      subst₂ PickupStep found later step

  -- BR-02: from tables with integrity on, a pickup that is still there has the household, the type
  -- and the flag that it had, and its status has moved along the lifecycle.
  pub pickup_lifecycle :
      (w : World) (i : Uuid) (p q : WastePickup)
      → Inv w.db
      → find i w.db.pickups ≡ some p
      → find i (finally w).pickups ≡ some q
      → (q.household_id ≡ p.household_id)
        × (q.type ≡ p.type)
        × (q.safety_check ≡ p.safety_check)
        × (p.status ⟶* q.status)
  pickup_lifecycle w i p q v found later =
      let b = pickup_becomes w i p q v found later in
      (b.same_household, b.same_type, b.same_safety, b.lifecycle)

  -- From tables with integrity on, a completed or canceled pickup that is still there keeps its
  -- status, whatever commands follow.
  pub final_status_stays :
      (w : World) (i : Uuid) (p q : WastePickup)
      → Inv w.db
      → find i w.db.pickups ≡ some p
      → find i (finally w).pickups ≡ some q
      → (p.status ≡ completed) ⊎ (p.status ≡ canceled)
      → q.status ≡ p.status
  final_status_stays w i p q v found later (inl e) =
      completed_path (pickup_becomes w i p q v found later).lifecycle e ∙ sym e
  final_status_stays w i p q v found later (inr e) =
      canceled_path (pickup_becomes w i p q v found later).lifecycle e ∙ sym e

  payment_becomes :
      (w : World) (i : Uuid) (q r : Payment)
      → Inv w.db
      → find i w.db.payments ≡ some q
      → find i (finally w).payments ≡ some r
      → PaymentBecomes q r
  payment_becomes w i q r v found later =
      let (v', ev) = run-Legal s3 canceler env rely cs w v in
      let step = ev.payments i (find-lt i w.db.next_id q w.db.payments v.payment_keys found) in
      subst₂ PaymentStep found later step

  -- From tables with integrity on, a paid payment that is still there is the same row.
  pub paid_stays :
      (w : World) (i : Uuid) (q r : Payment)
      → Inv w.db
      → find i w.db.payments ≡ some q
      → find i (finally w).payments ≡ some r
      → q.status ≡ paid
      → r ≡ q
  paid_stays w i q r v found later e =
      let b = payment_becomes w i q r v found later in ground (arith, b.lifecycle, e)
