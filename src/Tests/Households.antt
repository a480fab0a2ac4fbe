-- ===== src/Tests/Households.antt =====
-- The theorems on internal/service/household.go at concrete tables.
use community_waste_collecti.Base.{◌≡◌, refl, none, false, ◌==◌, nat_eq}
use community_waste_collecti.Table.{find, exists, affected}
use community_waste_collecti.Domain.{household_row}
use community_waste_collecti.Database.{query}
use community_waste_collecti.System.{start_with}
use community_waste_collecti.Repository.Households
use community_waste_collecti.Repository.Households.{of_household, delete_household}
use community_waste_collecti.Service.Households.{remove}
use community_waste_collecti.Service.Households.Deletion.{household_remove_ok}
use community_waste_collecti.Tests.Worlds.{quiet, quiet-Rely, settled_db, settled-Inv}

household_remove_ok_example :
    (find 1 (remove 1 quiet (start_with settled_db)).1.db.households ≡ none)
    × (exists (of_household 1) (remove 1 quiet (start_with settled_db)).1.db.pickups ≡ false)
    × (exists (λ q. q.household_id == 1) (remove 1 quiet (start_with settled_db)).1.db.payments
        ≡ false)
unfolding remove Households.remove delete_household query affected
household_remove_ok_example =
    household_remove_ok quiet quiet-Rely 1 (start_with settled_db) settled-Inv refl
