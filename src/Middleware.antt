-- ===== src/Middleware.antt =====
-- internal/middleware, its order in cmd/api/main.go and internal/handler/handler.go, and
-- echoErrorHandler of the latter. The tracing middleware of otelecho is a parameter. CORS and Secure
-- of echo, which add headers, are left out, and so is the body that a second c.JSON would append.
pub mod Answers
use community_waste_collecti.Base.{
  ℕ, ◌≡◌, String, Bool, true, false, List, ◌∷◌, Option, none, some, ◌==◌, nat_eq, string_eq,
  if◌then◌else◌,
}
use community_waste_collecti.Strconv.{itoa}
use community_waste_collecti.Handler.Responses.{Response, Failure, refusal, failure, status_of}

-- The error of a handler: an *echo.HTTPError with its code, or any other
pub data EchoError : Type 0 where
  http_error : ℕ → EchoError
  other_error : EchoError

-- What a handler comes to: it returns nil or an error, or it panics.
pub data Outcome : Type 0 where
  returned : Option EchoError → Outcome
  panicked : Outcome

-- The labels of http_requests_total
pub record Counted : Type 0 where
  pub method : String
  pub path : String
  pub status : String

-- The attributes of the line of RequestLogger, without the duration and the client's address;
-- `request_id` is "" where the line has none, and `is_error` is its level.
pub record Line : Type 0 where
  pub method : String
  pub url_path : String
  pub status : ℕ
  pub request_id : String
  pub is_error : Bool

-- An echo.Context with the records that are kept of it: `path` is the pattern of the matched route,
-- `status` the Status of its Response, and `written` what has been committed.
pub record Exchange (S : Type 0) : Type 0 where
  pub method : String
  pub path : String
  pub url_path : String
  pub sent_id : String
  pub response_id : String
  pub trace_id : Option String
  pub status : ℕ
  pub written : Option Response
  pub requests_total : List Counted
  pub lines : List Line
  pub state : S

-- What the handler of a route, with the middleware of its group, does to a request: it writes a
-- response and returns, it returns an error without one, or it panics before it has written one.
pub data Reply (S : Type 0) : Type 0 where
  replies : Response → Option EchoError → S → Reply S
  refuses : EchoError → S → Reply S
  panics : S → Reply S

-- The switch of echoErrorHandler over the code of an *echo.HTTPError
unfoldable pub http_error_code : ℕ → String
http_error_code code =
    if code == 413
    then "REQUEST_TOO_LARGE"
    else if code == 429
    then "RATE_LIMITED"
    else if code == 405
    then "METHOD_NOT_ALLOWED"
    else if code == 404
    then "NOT_FOUND"
    else "INTERNAL_ERROR"

unfoldable pub error_envelope : EchoError → Failure
unfolding http_error_code
error_envelope (http_error code) = refusal code (http_error_code code)
error_envelope other_error = refusal 500 "INTERNAL_ERROR"

-- The verdict of the rate limiter in front of a handler
unfoldable pub rate_limited : {S : Type 0} → (S → Bool × S) → (S → Reply S) → S → Reply S
rate_limited allow next s =
    let (allowed, s') = allow s in
    if allowed then next s' else replies (failure (refusal 429 "RATE_LIMITED")) none s'

abbrev pub Next : Type 0 → Type 0
Next S = Exchange S → Outcome × Exchange S

abbrev pub is_error : Option EchoError → Bool
is_error none = false
is_error (some e) = true

-- The precedence of RequestID, `fresh` being uuid.NewString()
abbrev pub trace_or : String → Option String → String
trace_or fresh none = fresh
trace_or fresh (some t) = t

unfoldable pub chosen_id : String → Option String → String → String
chosen_id fresh trace sent = if sent == "" then trace_or fresh trace else sent

module _ {S : Type 0} where
  -- c.JSON: a status is sent once.
  unfoldable pub write : Response → Exchange S → Exchange S
  write r x = elim (x.written) [
    | none ↦ record x { written = some r; status = status_of r }
    | some _ ↦ x
  ]

  unfoldable pub echo_error_handler : EchoError → Exchange S → Exchange S
  unfolding write error_envelope
  echo_error_handler e x = elim (x.written) [
    | some _ ↦ x
    | none ↦ write (failure (error_envelope e)) x
  ]

  unfoldable pub run_route : (S → Reply S) → Next S
  unfolding write
  run_route route x = elim (route x.state) [
    | replies r e s ↦ (returned e, write r (record x { state = s }))
    | refuses e s ↦ (returned (some e), record x { state = s })
    | panics s ↦ (panicked, record x { state = s })
  ]

  unfoldable pub recover_middleware : Next S → Next S
  unfolding write
  recover_middleware next x =
      let (o, y) = next x in
      elim o [
        | returned e ↦ (returned e, y)
        | panicked ↦ (returned none, write (failure (refusal 500 "INTERNAL_ERROR")) y)
      ]

  abbrev pub line_of : Option EchoError → Exchange S → Line
  line_of e y = record {
    method = y.method;
    url_path = y.url_path;
    status = y.status;
    request_id = y.response_id;
    is_error = is_error e;
  }

  unfoldable pub request_logger : Next S → Next S
  request_logger next x =
      let (o, y) = next x in
      elim o [
        | returned e ↦ (returned e, record y { lines = line_of e y ∷ y.lines })
        | panicked ↦ (panicked, y)
      ]

  unfoldable pub counted_of : Exchange S → Counted
  unfolding itoa
  counted_of y = record {
    method = y.method;
    path = if y.path == "" then "unknown" else y.path;
    status = if y.status == 0 then itoa 200 else itoa y.status;
  }

  unfoldable pub request_metrics : Next S → Next S
  unfolding counted_of
  request_metrics next x =
      let (o, y) = next x in
      elim o [
        | returned e ↦ (returned e, record y { requests_total = counted_of y ∷ y.requests_total })
        | panicked ↦ (panicked, y)
      ]

  unfoldable pub request_id : String → Next S → Next S
  unfolding chosen_id
  request_id fresh next x =
      let rid = chosen_id fresh x.trace_id x.sent_id in
      next (record x { sent_id = rid; response_id = rid })

  -- The order of the calls of e.Use
  unfoldable pub chain : (Next S → Next S) → String → Next S → Next S
  unfolding recover_middleware request_logger request_metrics request_id
  chain otel fresh next =
      recover_middleware (request_logger (otel (request_metrics (request_id fresh next))))
