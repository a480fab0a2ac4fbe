-- ===== src/Domain/Households.antt =====
-- internal/domain/household.go
use community_waste_collecti.Base.{ℕ, String}
use community_waste_collecti.Table.{Row}

-- A UUID, of which the program uses equality alone.
abbrev pub Uuid : Type 0
Uuid = ℕ

-- A time.Time, in nanoseconds.
abbrev pub Time : Type 0
Time = ℕ

pub record Household : Type 0 where
  pub id : Uuid
  pub owner_name : String
  pub address : String
  pub created_at : Time
  pub updated_at : Time

pub record CreateHouseholdRequest : Type 0 where
  pub owner_name : String
  pub address : String

instance abbrev pub household_row : Row Household
household_row = record { key = λ h. h.id }
