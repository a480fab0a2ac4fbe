-- ===== src/Domain/Payments.antt =====
-- internal/domain/payment.go
use community_waste_collecti.Base.{
  ℕ, String, ◌≡◌, ◌↔◌, Bool, true, false, Option, arith, Comparable,
}
use community_waste_collecti.Table.{Row}
use community_waste_collecti.Domain.Households.{Uuid, Time}

pub data PaymentStatus : Type 0 where
  pending paid failed : PaymentStatus

abbrev pub payment_status_beq : PaymentStatus → PaymentStatus → Bool
payment_status_beq pending pending = true
payment_status_beq paid paid = true
payment_status_beq failed failed = true
payment_status_beq _ _ = false

pub payment_status_beq_iff : (a b : PaymentStatus) → (payment_status_beq a b ≡ true) ↔ (a ≡ b)
payment_status_beq_iff a b = ground arith

instance abbrev pub payment_status_eq : Comparable PaymentStatus
payment_status_eq = record { equals = payment_status_beq; equals_iff = payment_status_beq_iff }

-- The object key `<payment>/proof_<nonce>` of a proof, and the URL `<endpoint>/<bucket>/<key>`: the
-- parts that the program formats.
pub record ProofKey : Type 0 where
  pub payment : Uuid
  pub nonce : Uuid

pub record ProofUrl : Type 0 where
  pub endpoint : String
  pub bucket : String
  pub key : ProofKey

pub record Payment : Type 0 where
  pub id : Uuid
  pub household_id : Uuid
  pub waste_id : Uuid
  pub amount : ℕ
  pub payment_date : Option Time
  pub status : PaymentStatus
  pub proof_file_url : Option ProofUrl
  pub created_at : Time
  pub updated_at : Time

-- The client's amount is a decimal that no code after the validator looks at.
pub record CreatePaymentRequest (Decimal : Type 0) : Type 0 where
  pub household_id : Uuid
  pub waste_id : Uuid
  pub amount : Decimal

pub record PaymentFilter : Type 0 where
  pub household_id : Option Uuid
  pub status : Option PaymentStatus
  pub date_from : Option Time
  pub date_to : Option Time
  pub page : ℕ
  pub per_page : ℕ

instance abbrev pub payment_row : Row Payment
payment_row = record { key = λ q. q.id }
