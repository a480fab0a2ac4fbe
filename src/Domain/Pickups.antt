-- ===== src/Domain/Pickups.antt =====
-- internal/domain/pickup.go. Amounts are whole cents, as NUMERIC(12,2) stores them.
use community_waste_collecti.Base.{ℕ, ◌≡◌, ◌↔◌, Bool, true, false, Option, arith, Comparable}
use community_waste_collecti.Table.{Row}
use community_waste_collecti.Domain.Households.{Uuid, Time}

pub data WasteType : Type 0 where
  organic plastic paper electronic : WasteType

pub data PickupStatus : Type 0 where
  pending scheduled completed canceled : PickupStatus

abbrev pub waste_beq : WasteType → WasteType → Bool
waste_beq organic organic = true
waste_beq plastic plastic = true
waste_beq paper paper = true
waste_beq electronic electronic = true
waste_beq _ _ = false

pub waste_beq_iff : (a b : WasteType) → (waste_beq a b ≡ true) ↔ (a ≡ b)
waste_beq_iff a b = ground arith

instance abbrev pub waste_eq : Comparable WasteType
waste_eq = record { equals = waste_beq; equals_iff = waste_beq_iff }

abbrev pub pickup_status_beq : PickupStatus → PickupStatus → Bool
pickup_status_beq pending pending = true
pickup_status_beq scheduled scheduled = true
pickup_status_beq completed completed = true
pickup_status_beq canceled canceled = true
pickup_status_beq _ _ = false

pub pickup_status_beq_iff : (a b : PickupStatus) → (pickup_status_beq a b ≡ true) ↔ (a ≡ b)
pickup_status_beq_iff a b = ground arith

instance abbrev pub pickup_status_eq : Comparable PickupStatus
pickup_status_eq = record { equals = pickup_status_beq; equals_iff = pickup_status_beq_iff }

-- `PaymentAmounts`, a map that has every waste type.
unfoldable pub payment_amounts : WasteType → ℕ
payment_amounts organic = 5000000
payment_amounts plastic = 5000000
payment_amounts paper = 5000000
payment_amounts electronic = 10000000

pub record WastePickup : Type 0 where
  pub id : Uuid
  pub household_id : Uuid
  pub type : WasteType
  pub status : PickupStatus
  pub pickup_date : Option Time
  pub safety_check : Bool
  pub created_at : Time
  pub updated_at : Time

pub record CreatePickupRequest : Type 0 where
  pub household_id : Uuid
  pub type : WasteType
  pub safety_check : Bool

pub record SchedulePickupRequest : Type 0 where
  pub pickup_date : Time

pub record PickupFilter : Type 0 where
  pub household_id : Option Uuid
  pub status : Option PickupStatus
  pub page : ℕ
  pub per_page : ℕ

instance abbrev pub pickup_row : Row WastePickup
pickup_row = record { key = λ p. p.id }
