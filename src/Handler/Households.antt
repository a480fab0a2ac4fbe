-- ===== src/Handler/Households.antt =====
-- internal/handler/household.go and internal/handler/report.go
use community_waste_collecti.Base.{String}
use community_waste_collecti.Service.Households
use community_waste_collecti.Service.Reports
use community_waste_collecti.Handler.Responses.{
  Response, parsed, success, no_content, household, households, by_type, payment_totals, history,
  respond_list,
}
use community_waste_collecti.Handler.Handling.{Handling, ◌>>=◌, ◌>>◌, pure, call, respond}
use community_waste_collecti.Handler.Paging.{Query, pagination_params}
use community_waste_collecti.Handler.Requests.{Packages}
use community_waste_collecti.Handler.Validation.{bind_household_request}

-- GET /api/households
unfoldable pub list_households : Query → Handling Response
unfolding pagination_params respond_list
list_households q = do
  paging ← pure (pagination_params q)
  found ← call (Households.list paging.0 paging.1)
  respond (respond_list (households found.0) found.1 paging.0 paging.1)

unfoldable pub waste_summary : Handling Response
waste_summary = do summary ← call Reports.waste_summary; respond (success 200 (by_type summary))

unfoldable pub payment_summary : Handling Response
payment_summary = do
  summary ← call Reports.payment_summary
  respond (success 200 (payment_totals summary))

module _ {Body Decimal : Type 0} (pkg : Packages Body Decimal) where
  unfoldable pub create_household : Body → Handling Response
  unfolding bind_household_request
  create_household body = do
    req ← bind_household_request pkg body
    created ← call (Households.create req)
    respond (success 201 (household created))

  unfoldable pub get_household : String → Handling Response
  get_household id_text = do
    id ← pure (parsed (pkg.parse_uuid id_text))
    found ← call (Households.get_by_id id)
    respond (success 200 (household found))

  unfoldable pub delete_household : String → Handling Response
  delete_household id_text = do
    id ← pure (parsed (pkg.parse_uuid id_text))
    call (Households.remove id)
    respond no_content

  unfoldable pub household_history : String → Handling Response
  household_history id_text = do
    id ← pure (parsed (pkg.parse_uuid id_text))
    found ← call (Reports.household_history id)
    respond (success 200 (history found))
