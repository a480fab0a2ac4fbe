-- ===== src/Handler/Routes.antt =====
-- internal/handler/handler.go: the Handler, and RegisterRoutes as a table. The router of echo, which
-- finds the row of a request, is left out; the middleware of the rows is in Server.
use community_waste_collecti.Base.{ℕ, String, Bool, List, [], ◌∷◌, map}
use community_waste_collecti.Database.{Env, World}
use community_waste_collecti.Storage.{S3Client}
use community_waste_collecti.Handler.Responses.{Response, finished}
use community_waste_collecti.Handler.Handling.{Handling}
use community_waste_collecti.Handler.Requests.{Packages, Request}
use community_waste_collecti.Handler.Health
use community_waste_collecti.Handler.Households
use community_waste_collecti.Handler.Pickups
use community_waste_collecti.Handler.Payments

-- The methods of Handler that answer requests
pub data Endpoint : Type 0 where
  health_check ready_check : Endpoint
  create_household list_households get_household delete_household : Endpoint
  create_pickup list_pickups schedule_pickup complete_pickup cancel_pickup : Endpoint
  create_payment list_payments confirm_payment : Endpoint
  waste_summary payment_summary household_history : Endpoint

pub record Route : Type 0 where
  pub method : String
  pub path : String

abbrev route : String → String → Route
route method path = record { method = method; path = path }

-- The line of RegisterRoutes that binds a method of Handler
unfoldable pub route_of : Endpoint → Route
route_of Endpoint.health_check = route "GET" "/health"
route_of Endpoint.ready_check = route "GET" "/readyz"
route_of Endpoint.create_household = route "POST" "/api/households"
route_of Endpoint.list_households = route "GET" "/api/households"
route_of Endpoint.get_household = route "GET" "/api/households/:id"
route_of Endpoint.delete_household = route "DELETE" "/api/households/:id"
route_of Endpoint.create_pickup = route "POST" "/api/pickups"
route_of Endpoint.list_pickups = route "GET" "/api/pickups"
route_of Endpoint.schedule_pickup = route "PUT" "/api/pickups/:id/schedule"
route_of Endpoint.complete_pickup = route "PUT" "/api/pickups/:id/complete"
route_of Endpoint.cancel_pickup = route "PUT" "/api/pickups/:id/cancel"
route_of Endpoint.create_payment = route "POST" "/api/payments"
route_of Endpoint.list_payments = route "GET" "/api/payments"
route_of Endpoint.confirm_payment = route "PUT" "/api/payments/:id/confirm"
route_of Endpoint.waste_summary = route "GET" "/api/reports/waste-summary"
route_of Endpoint.payment_summary = route "GET" "/api/reports/payment-summary"
route_of Endpoint.household_history = route "GET" "/api/reports/households/:id/history"

-- The methods of Handler, in the order of RegisterRoutes
abbrev pub endpoints : List Endpoint
endpoints =
    Endpoint.health_check ∷ Endpoint.ready_check ∷ Endpoint.create_household
    ∷ Endpoint.list_households ∷ Endpoint.get_household ∷ Endpoint.delete_household
    ∷ Endpoint.create_pickup ∷ Endpoint.list_pickups ∷ Endpoint.schedule_pickup
    ∷ Endpoint.complete_pickup ∷ Endpoint.cancel_pickup ∷ Endpoint.create_payment
    ∷ Endpoint.list_payments ∷ Endpoint.confirm_payment ∷ Endpoint.waste_summary
    ∷ Endpoint.payment_summary ∷ Endpoint.household_history ∷ []

unfoldable pub register_routes : List Route
unfolding route_of
register_routes = map route_of endpoints

-- What a Handler is made of, beside its services
pub record Handler : Type 0 where
  pub db_configured : Bool
  pub storage_configured : Bool
  pub max_upload_size_mb : ℕ

module _ {Body Decimal : Type 0} (pkg : Packages Body Decimal) (s3 : S3Client) (h : Handler) where
  unfoldable pub serve : Endpoint → Request Body → Handling Response
  serve Endpoint.health_check r = Health.health_check
  serve Endpoint.ready_check r = Health.ready_check h.db_configured h.storage_configured
  serve Endpoint.create_household r = Households.create_household pkg r.body
  serve Endpoint.list_households r = Households.list_households r.query
  serve Endpoint.get_household r = Households.get_household pkg r.id
  serve Endpoint.delete_household r = Households.delete_household pkg r.id
  serve Endpoint.create_pickup r = Pickups.create_pickup pkg h.db_configured r.body
  serve Endpoint.list_pickups r = Pickups.list_pickups pkg r.query
  serve Endpoint.schedule_pickup r = Pickups.schedule_pickup pkg r.id r.body
  serve Endpoint.complete_pickup r = Pickups.complete_pickup pkg r.id
  serve Endpoint.cancel_pickup r = Pickups.cancel_pickup pkg r.id
  serve Endpoint.create_payment r = Payments.create_payment pkg h.db_configured r.body
  serve Endpoint.list_payments r = Payments.list_payments pkg r.query
  serve Endpoint.confirm_payment r =
      Payments.confirm_payment pkg s3 h.max_upload_size_mb r.id r.body
  serve Endpoint.waste_summary r = Households.waste_summary
  serve Endpoint.payment_summary r = Households.payment_summary
  serve Endpoint.household_history r = Households.household_history pkg r.id

  -- The response that is on the wire when the handler has returned: an error that it returns after
  -- writing one leaves it alone, since echoErrorHandler sees that the response is committed.
  unfoldable pub response_to : Endpoint → Request Body → Env → World → Response
  unfolding serve
  response_to e r env w = finished (serve e r env w).0

  -- Requests one after another
  unfoldable pub serve_all : List (Endpoint × Request Body) → Env → World → World
  unfolding serve
  serve_all [] env w = w
  serve_all ((e, r) ∷ more) env w = serve_all more env (serve e r env w).1
