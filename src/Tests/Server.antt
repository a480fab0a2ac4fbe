-- ===== src/Tests/Server.antt =====
-- The theorem on the server of cmd/api/main.go at concrete requests.
use community_waste_collecti.Base.{
  ℕ, ◌+◌, ◌≤◌, ◌≡◌, refl, String, false, List, [], ◌∷◌, Option, none, some, nat_eq, length,
}
use community_waste_collecti.Database.Integrity.{Inv, Evolves}
use community_waste_collecti.System.{start_with}
use community_waste_collecti.Handler.Responses.{failure, refusal}
use community_waste_collecti.Handler.Requests.{no_file}
use community_waste_collecti.Handler.Routes.{Endpoint}
use community_waste_collecti.Middleware.{EchoError, http_error, other_error, Next}
use community_waste_collecti.Middleware.Answers.{settle}
use community_waste_collecti.RateLimit.{no_clients}
use community_waste_collecti.RateLimit.Clients.{no_clients-Valid}
use community_waste_collecti.Server.{
  returns, panics_at_once, Arrival, Target, routed, unrouted, Shared, Process, Happening, request,
  sweep, cycle, happen_all,
}
use community_waste_collecti.Server.Integrity.{server_keeps_integrity}
use community_waste_collecti.Tests.Worlds.{
  quiet, quiet-Rely, s3, canceler, collected_db, collected-Inv,
}
use community_waste_collecti.Tests.Http.{Body, booking, upload, nothing, pkg, handler, by_id}
use community_waste_collecti.Tests.RateLimit.{take_token}

abbrev traced : Option String → Next (Shared ℕ ℕ) → Next (Shared ℕ ℕ)
traced span next x = settle (next (record x { trace_id = span }))

-- An upload is over the limit of JSON bodies.
abbrev body_limit : Body → Option EchoError
body_limit (upload form) = some (http_error 413)
body_limit _ = none

abbrev arrival : Target Body → String → String → Arrival ℕ Body
arrival target method url_path = record {
  target = target;
  ip = 7;
  at = 1000;
  method = method;
  url_path = url_path;
  sent_id = "";
  fresh = "fresh";
  span = some url_path;
  ending = returns none;
}

-- Requests that are refused, by a rule, the limiter, the body limit and the router, and a panic, with a sweep and a
-- cycle of the worker between them
abbrev busy_hour : List (Happening ℕ Body)
busy_hour =
    request (
      arrival
        (routed Endpoint.create_pickup
          (by_id "" (booking (record { household_id = 1; type = "paper"; safety_check = false }))))
        "POST" "/api")
    ∷ sweep 1001
    ∷ request (arrival (routed Endpoint.create_pickup (by_id "" nothing)) "POST" "/api")
    ∷ cycle canceler
    ∷ request (arrival (routed Endpoint.create_household (by_id "" (upload no_file))) "POST" "/api")
    ∷ request (arrival (unrouted (http_error 404) "") "GET" "/")
    ∷ request (record (arrival (routed Endpoint.health_check (by_id "" nothing)) "GET" "/health") {
      ending = panics_at_once;
    })
    ∷ []

abbrev idle : Process ℕ ℕ
idle = record {
  shared = record { world = start_with collected_db; limiters = no_clients };
  requests_total = [];
  lines = [];
  answers = [];
}

abbrev busy : Process ℕ ℕ
busy = happen_all pkg s3 handler 1 take_token body_limit traced quiet busy_hour idle

server_keeps_integrity_example :
    Inv busy.shared.world.db
    × Evolves collected_db busy.shared.world.db
    × (busy.shared.limiters.active ≡ length busy.shared.limiters.clients)
    × (length busy.answers ≡ 5 + 0)
    × (4 + 0 ≤ length busy.requests_total)
    × (length busy.requests_total ≤ 5 + 0)
    × (length busy.lines + 0 ≡ length busy.requests_total + 0)
server_keeps_integrity_example =
    server_keeps_integrity pkg s3 handler 1 take_token body_limit traced quiet quiet-Rely
      (λ span next x. refl) busy_hour idle collected-Inv no_clients-Valid

refusals :
    busy.answers
    ≡ failure (refusal 500 "INTERNAL_ERROR")
      ∷ failure (refusal 404 "NOT_FOUND")
      ∷ failure (refusal 413 "REQUEST_TOO_LARGE")
      ∷ failure (refusal 429 "RATE_LIMITED")
      ∷ failure (refusal 409 "CONFLICT")
      ∷ []
unfolding happen_all community_waste_collecti.Middleware.echo_error_handler
    community_waste_collecti.RateLimit.rate_limiter community_waste_collecti.RateLimit.lookup
    community_waste_collecti.Handler.Pickups.create_pickup community_waste_collecti.Database.query
    community_waste_collecti.Table.affected community_waste_collecti.Handler.Handling.call
    community_waste_collecti.Service.Pickups.create
    community_waste_collecti.Repository.Pickups.has_pending_payment_for_household
    community_waste_collecti.Table.exists community_waste_collecti.Repository.Pickups.is_pending_of
    community_waste_collecti.RateLimit.sweep_once community_waste_collecti.Table.delete
    community_waste_collecti.RateLimit.is_idle
refusals = refl
