-- ===== src/Service/Households.antt =====
-- internal/service/household.go
pub mod Legality
pub mod Deletion
use community_waste_collecti.Base.{ℕ, List}
use community_waste_collecti.Domain.{Uuid, Household, CreateHouseholdRequest}
use community_waste_collecti.Database.{Action}
use community_waste_collecti.Repository.Households
use community_waste_collecti.Repository.Lists.{list_households}

unfoldable pub new_household : CreateHouseholdRequest → Household
new_household req = record {
  id = 0;
  owner_name = req.owner_name;
  address = req.address;
  created_at = 0;
  updated_at = 0;
}

unfoldable pub create : CreateHouseholdRequest → Action Household
unfolding new_household
create req = Households.create (new_household req)

unfoldable pub get_by_id : Uuid → Action Household
get_by_id id = Households.find_by_id id

unfoldable pub remove : Uuid → Action (Unit {0})
remove id = Households.remove id

unfoldable pub list : ℕ → ℕ → Action (List Household × ℕ)
list page per_page = list_households page per_page
