-- ===== src/Service/Households/Legality.antt =====
-- Legality of the methods of internal/service/household.go.
use community_waste_collecti.Domain.{Uuid, CreateHouseholdRequest}
use community_waste_collecti.Database.{Env, World, select_from}
use community_waste_collecti.Database.Integrity.{Rely, Legal-refl}
use community_waste_collecti.Database.Calls.{seen, query-Legal}
use community_waste_collecti.Repository.Households
use community_waste_collecti.Repository.Households.Legality.{
  insert_household-Legal, delete_household-Legal,
}
use community_waste_collecti.Service.Pickups.Legality.{Keeps}
use community_waste_collecti.Service.Households.{create, new_household, get_by_id, remove}

module _ (env : Env) (rely : Rely env) where
  pub create-Legal : (req : CreateHouseholdRequest) (w : World) → Keeps w (create req env w)
  unfolding create Households.create
  create-Legal req w =
      query-Legal env rely (Households.insert_household (new_household req)) w
        (insert_household-Legal (new_household req) (env w.calls).now (seen env w))

  pub get_by_id-Legal : (id : Uuid) (w : World) → Keeps w (get_by_id id env w)
  unfolding get_by_id Households.find_by_id
  get_by_id-Legal id w = query-Legal env rely (select_from _) w (Legal-refl _)

  pub remove-Legal : (id : Uuid) (w : World) → Keeps w (remove id env w)
  unfolding remove Households.remove
  remove-Legal id w =
      query-Legal env rely (Households.delete_household id) w
        (delete_household-Legal id (env w.calls).now (seen env w))
