-- ===== src/Server.antt =====
-- buildHTTPServer of cmd/api/main.go with RegisterRoutes of internal/handler/handler.go: the handlers
-- behind the middleware of their routes, behind that of all routes, for requests one after another,
-- and beside them the sweeps of the rate limiter and the cycles of the worker.
-- The router and the body limit of echo, otelecho and the token bucket are parameters; otelecho is given
-- the trace id of the span that it starts for a request.
pub mod Replies
pub mod Integrity
use community_waste_collecti.Base.{
  String, Bool, List, [], ◌∷◌, Option, none, some, Comparable, if◌then◌else◌,
}
use community_waste_collecti.Domain.{Time}
use community_waste_collecti.Database.{Env, World}
use community_waste_collecti.Storage.{S3Client}
use community_waste_collecti.Handler.Responses.{Response}
use community_waste_collecti.Handler.Requests.{Packages, Request}
use community_waste_collecti.Handler.Routes.{Endpoint, Handler, route_of, serve, response_to}
use community_waste_collecti.Middleware.{
  EchoError, Outcome, Counted, Line, Exchange, Reply, replies, refuses, panics, Next, rate_limited,
  run_route, chain,
}
use community_waste_collecti.Middleware.Answers.{unanswered}
use community_waste_collecti.RateLimit.{Limiters, rate_limiter, sweep_once}
use community_waste_collecti.Worker.{OrganicCanceler, run}

-- The middleware of single routes
pub data Guard : Type 0 where
  per_ip_limit json_body_limit : Guard

-- The middleware that RegisterRoutes gives to a route, in its order
unfoldable pub guards_of : Endpoint → List Guard
guards_of Endpoint.create_household = json_body_limit ∷ []
guards_of Endpoint.create_pickup = per_ip_limit ∷ json_body_limit ∷ []
guards_of Endpoint.schedule_pickup = json_body_limit ∷ []
guards_of Endpoint.create_payment = json_body_limit ∷ []
guards_of _ = []

-- What echo's router finds: a route with its request, or the error of none, with c.Path()
pub data Target (Body : Type 0) : Type 0 where
  routed : Endpoint → Request Body → Target Body
  unrouted : EchoError → String → Target Body

-- How a handler ends: it returns after it has written its response, or it panics, before it has
-- called its service or between that and the response.
pub data Ending : Type 0 where
  returns : Option EchoError → Ending
  panics_at_once panics_late : Ending

-- A request at the server. `span` is the trace id of its span, and `fresh` the UUID that it gets if it
-- needs one.
pub record Arrival (Ip Body : Type 0) : Type 0 where
  pub target : Target Body
  pub ip : Ip
  pub at : Time
  pub method : String
  pub url_path : String
  pub sent_id : String
  pub fresh : String
  pub span : Option String
  pub ending : Ending

pub data Happening (Ip Body : Type 0) : Type 0 where
  request : Arrival Ip Body → Happening Ip Body
  sweep : Time → Happening Ip Body
  cycle : OrganicCanceler → Happening Ip Body

-- What the requests share
pub record Shared (Ip Limiter : Type 0) : Type 0 where
  pub world : World
  pub limiters : Limiters Ip Limiter

-- The process between two requests; `answers` are the responses that clients have got.
pub record Process (Ip Limiter : Type 0) : Type 0 where
  pub shared : Shared Ip Limiter
  pub requests_total : List Counted
  pub lines : List Line
  pub answers : List Response

abbrev pub add_answer : Option Response → List Response → List Response
add_answer none rs = rs
add_answer (some r) rs = r ∷ rs

abbrev pub path_of : {Body : Type 0} → Target Body → String
path_of (routed e r) = (route_of e).path
path_of (unrouted x path) = path

module _ {Ip Limiter Body Decimal : Type 0} ⦃c : Comparable Ip⦄ (pkg : Packages Body Decimal)
    (s3 : S3Client) (h : Handler) (new_limiter : Limiter) (allow : Time → Limiter → Bool × Limiter)
    (body_limit : Body → Option EchoError)
    (otel : Option String → Next (Shared Ip Limiter) → Next (Shared Ip Limiter)) (env : Env) where
  abbrev pub Route : Type 0
  Route = Shared Ip Limiter → Reply (Shared Ip Limiter)

  -- The verdict of the limiter on a client
  abbrev pub allows : Ip → Time → Shared Ip Limiter → Bool × Shared Ip Limiter
  allows ip now s =
      let (allowed, limiters) = rate_limiter new_limiter allow ip now s.limiters in
      (allowed, record s { limiters = limiters })

  unfoldable pub guarded : List Guard → Arrival Ip Body → Request Body → Route → Route
  unfolding rate_limited
  guarded [] a r next s = next s
  guarded (per_ip_limit ∷ gs) a r next s = rate_limited (allows a.ip a.at) (guarded gs a r next) s
  guarded (json_body_limit ∷ gs) a r next s = elim (body_limit r.body) [
    | none ↦ guarded gs a r next s
    | some x ↦ refuses x s
  ]

  -- A method of Handler
  unfoldable pub endpoint_reply : Endpoint → Request Body → Ending → Route
  unfolding serve response_to
  endpoint_reply e r (returns result) s =
      replies (response_to pkg s3 h e r env s.world) result
        (record s { world = (serve pkg s3 h e r env s.world).1 })
  endpoint_reply e r panics_at_once s = panics s
  endpoint_reply e r panics_late s =
      panics (record s { world = (serve pkg s3 h e r env s.world).1 })

  unfoldable pub reply_to : Arrival Ip Body → Target Body → Route
  unfolding guarded endpoint_reply guards_of
  reply_to a (routed e r) s = guarded (guards_of e) a r (endpoint_reply e r a.ending) s
  reply_to a (unrouted x path) s = refuses x s

  unfoldable pub arrive : Arrival Ip Body → Process Ip Limiter → Process Ip Limiter
  unfolding chain run_route reply_to
  arrive a p =
      let x =
        unanswered a.method (path_of a.target) a.url_path a.sent_id p.requests_total p.lines
          p.shared in
      let (o, y) = chain (otel a.span) a.fresh (run_route (reply_to a a.target)) x in
      record {
        shared = y.state;
        requests_total = y.requests_total;
        lines = y.lines;
        answers = add_answer y.written p.answers;
      }

  -- What the process does next: an arrival, a sweep of the limiters, or a cycle of the worker
  unfoldable pub happen : Happening Ip Body → Process Ip Limiter → Process Ip Limiter
  unfolding arrive
  happen (request a) p = arrive a p
  happen (sweep now) p =
      let limiters = (sweep_once now p.shared.limiters).1 in
      record p { shared = record p.shared { limiters = limiters } }
  happen (cycle canceler) p =
      let world = (run canceler env p.shared.world).1 in
      record p { shared = record p.shared { world = world } }

  unfoldable pub happen_all : List (Happening Ip Body) → Process Ip Limiter → Process Ip Limiter
  unfolding happen
  happen_all [] p = p
  happen_all (x ∷ more) p = happen_all more (happen x p)
