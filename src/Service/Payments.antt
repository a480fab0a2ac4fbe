-- ===== src/Service/Payments.antt =====
-- internal/service/payment.go
pub mod Legality
pub mod Creation
pub mod Marking
pub mod Confirmation
pub mod Proofs
use community_waste_collecti.Base.{ℕ, suc, String, not, List, Option, none, some, ◌==◌, nat_eq}
use community_waste_collecti.Domain.{
  PaymentFilter, Uuid, Payment, PaymentStatus, paid, payment_status_eq, CreatePaymentRequest,
  ProofKey, ProofUrl, payment_amounts, business_rule, conflict, validation, ok, err,
}
use community_waste_collecti.Database.{
  Action, pure, raise, ◌>>=◌, ◌>>◌, raise_if, emit, clock, payments_created_total,
  payments_confirmed_total,
}
use community_waste_collecti.Storage
use community_waste_collecti.Storage.{S3Client}
use community_waste_collecti.Repository.Lists.{list_payments}
use community_waste_collecti.Repository.Pickups
use community_waste_collecti.Repository.Payments

-- The struct that `Create` hands to the repository.
unfoldable pub new_payment : Uuid → Uuid → ℕ → Payment
new_payment household_id waste_id amount = record {
  id = 0;
  household_id = household_id;
  waste_id = waste_id;
  amount = amount;
  payment_date = none;
  status = PaymentStatus.pending;
  proof_file_url = none;
  created_at = 0;
  updated_at = 0;
}

unfoldable pub create : {Decimal : Type 0} → CreatePaymentRequest Decimal → Action Payment
unfolding new_payment
create req = do
  pickup ← Pickups.find_by_id req.waste_id
  raise_if (not (pickup.household_id == req.household_id)) business_rule
  payment ←
      Payments.create (new_payment req.household_id req.waste_id (payment_amounts pickup.type))
  emit payments_created_total
  pure payment

-- uuid.New()
abbrev pub new_uuid : Action Uuid
new_uuid env w = (ok (env w.calls).nonce, record w { calls = suc w.calls })

-- `if err := m; err != nil { cleanup; return err }`: what the cleanup returns is only logged.
abbrev pub on_failure : {A : Type 0} → Action A → Action (Unit {0}) → Action A
on_failure m cleanup env w =
    let (r, w') = m env w in elim r [ ok a ↦ (ok a, w') | err e ↦ (err e, (cleanup env w').1) ]

-- The code of Confirm after the upload: mark the row, and drop the object if that fails.
unfoldable pub mark : Payment → Uuid → ProofKey → ProofUrl → Action Payment
mark payment id key url = do
  paid_at ← clock
  on_failure (Payments.confirm id url paid_at) (Storage.remove key)
  emit payments_confirmed_total
  pure (record payment { status = paid; proof_file_url = some url; payment_date = some paid_at })

-- The code of Confirm after its checks.
unfoldable pub settle : S3Client → Payment → Uuid → List ℕ → ℕ → String → Action Payment
unfolding mark
settle s3 payment id body size content_type = do
  nonce ← new_uuid
  let key : ProofKey = record { payment = id; nonce = nonce }
  url ← Storage.upload s3 key body size content_type
  mark payment id key url

-- `file == nil` is `none`; a file is its bytes, with the size and the type that its part declares.
unfoldable pub confirm : S3Client → Uuid → Option (List ℕ) → ℕ → String → Action Payment
confirm s3 id none size content_type = raise validation
confirm s3 id (some body) size content_type = do
  payment ← Payments.find_by_id id
  raise_if (not (payment.status == PaymentStatus.pending)) conflict
  settle s3 payment id body size content_type

unfoldable pub list : PaymentFilter → Action (List Payment × ℕ)
list filter = list_payments filter
