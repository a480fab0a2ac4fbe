-- ===== src/Handler/Pickups.antt =====
-- internal/handler/pickup.go
use community_waste_collecti.Base.{String, Bool}
use community_waste_collecti.Service.Pickups
use community_waste_collecti.Handler.Responses.{
  Response, parsed, success, pickup, pickups, respond_list,
}
use community_waste_collecti.Handler.Handling.{Handling, ◌>>=◌, pure, call, respond}
use community_waste_collecti.Handler.Paging.{Query}
use community_waste_collecti.Handler.Filters.{pickup_filter}
use community_waste_collecti.Handler.Requests.{Packages}
use community_waste_collecti.Handler.Validation.{bind_pickup_request, bind_schedule_request}

module _ {Body Decimal : Type 0} (pkg : Packages Body Decimal) where
  unfoldable pub create_pickup : Bool → Body → Handling Response
  unfolding bind_pickup_request
  create_pickup db_configured body = do
    req ← bind_pickup_request pkg db_configured body
    created ← call (Pickups.create req)
    respond (success 201 (pickup created))

  unfoldable pub list_pickups : Query → Handling Response
  unfolding pickup_filter respond_list
  list_pickups q = do
    filter ← pure (pickup_filter pkg q)
    found ← call (Pickups.list filter)
    respond (respond_list (pickups found.0) found.1 filter.page filter.per_page)

  unfoldable pub schedule_pickup : String → Body → Handling Response
  unfolding bind_schedule_request
  schedule_pickup id_text body = do
    id ← pure (parsed (pkg.parse_uuid id_text))
    req ← bind_schedule_request pkg body
    changed ← call (Pickups.schedule id req)
    respond (success 200 (pickup changed))

  unfoldable pub complete_pickup : String → Handling Response
  complete_pickup id_text = do
    id ← pure (parsed (pkg.parse_uuid id_text))
    changed ← call (Pickups.complete id)
    respond (success 200 (pickup changed))

  unfoldable pub cancel_pickup : String → Handling Response
  cancel_pickup id_text = do
    id ← pure (parsed (pkg.parse_uuid id_text))
    changed ← call (Pickups.cancel id)
    respond (success 200 (pickup changed))
