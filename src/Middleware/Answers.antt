-- ===== src/Middleware/Answers.antt =====
-- What a client gets, what is counted and what is logged for a request that passes through the
-- middleware of internal/middleware, in the order of cmd/api/main.go.
use community_waste_collecti.Base.{
  ℕ, ◌≡◌, refl, ap, ◌∙◌, String, true, List, ◌∷◌, Option, none, some, ◌==◌, nat_eq, string_eq,
  if◌then◌else◌,
}
use community_waste_collecti.Strconv.{itoa}
use community_waste_collecti.Handler.Responses.{Response, refusal, failure, status_of}
use community_waste_collecti.Middleware.{
  EchoError, Outcome, returned, panicked, Counted, Line, Exchange, Reply, replies, refuses, panics,
  error_envelope, Next, echo_error_handler, run_route, chosen_id, is_error, chain,
  recover_middleware, request_logger, request_metrics, request_id, counted_of, write,
}

-- A count of the metrics middleware for a context of that status
abbrev pub counted : String → String → ℕ → Counted
counted method path status = record {
  method = method;
  path = if path == "" then "unknown" else path;
  status = if status == 0 then itoa 200 else itoa status;
}

module _ {S : Type 0} where
  -- Where c.Error is called on an error, before it is returned
  abbrev pub settle : Outcome × Exchange S → Outcome × Exchange S
  settle (returned none, y) = (returned none, y)
  settle (returned (some e), y) = (returned (some e), echo_error_handler e y)
  settle (panicked, y) = (panicked, y)

  -- What otelecho documents: it puts its span into the context of the request, and hands the error
  -- that the next handler returns to the error handler before it returns it.
  abbrev pub Traces : (Next S → Next S) → Option String → Type 0
  Traces otel span =
      (next : Next S) (x : Exchange S) → otel next x ≡ settle (next (record x { trace_id = span }))

  -- The response to a request whose handler does so
  abbrev pub answer_of : Reply S → Response
  answer_of (replies r e s) = r
  answer_of (refuses e s) = failure (error_envelope e)
  answer_of (panics s) = failure (refusal 500 "INTERNAL_ERROR")

  abbrev pub state_of : Reply S → S
  state_of (replies r e s) = s
  state_of (refuses e s) = s
  state_of (panics s) = s

  -- A context of echo before its request is handled: its status is 200, and nothing is written.
  abbrev pub unanswered :
      String → String → String → String → List Counted → List Line → S → Exchange S
  unanswered method path url_path sent_id requests_total lines s = record {
    method = method;
    path = path;
    url_path = url_path;
    sent_id = sent_id;
    response_id = "";
    trace_id = none;
    status = 200;
    written = none;
    requests_total = requests_total;
    lines = lines;
    state = s;
  }

  -- What the counter has after the reply
  abbrev pub counts : String → String → Reply S → List Counted → List Counted
  counts method path (replies r e s) before = counted method path (status_of r) ∷ before
  counts method path (refuses e s) before = counted method path 200 ∷ before
  counts method path (panics s) before = before

  -- What the log has after the reply
  abbrev pub logged : String → String → String → Reply S → List Line → List Line
  logged method url_path id (replies r e s) before =
      record {
        method = method;
        url_path = url_path;
        status = status_of r;
        request_id = id;
        is_error = is_error e;
      }
      ∷ before
  logged method url_path id (refuses e s) before =
      record {
        method = method;
        url_path = url_path;
        status = (error_envelope e).status;
        request_id = id;
        is_error = true;
      }
      ∷ before
  logged method url_path id (panics s) before = before

  -- The way of a reply through the middleware
  abbrev way : Option String → String → Reply S → Exchange S → Outcome × Exchange S
  way span fresh p x =
      let inner = request_metrics (request_id fresh (run_route (λ _. p))) in
      recover_middleware (request_logger (λ _. settle (inner (record x { trace_id = span })))) x

  passed :
      (span : Option String) (fresh : String) (p : Reply S) (method path url_path sent : String)
      (before : List Counted) (lines : List Line) (s : S)
      → (e : Option EchoError) × (y : Exchange S) × (way span fresh p
            (unanswered method path url_path sent before lines s)
          ≡ (returned e, y))
        × (y.written ≡ some (answer_of p))
        × (y.status ≡ status_of (answer_of p))
        × (y.state ≡ state_of p)
        × ((late : EchoError) → echo_error_handler late y ≡ y)
        × (y.response_id ≡ chosen_id fresh span sent)
        × (y.requests_total ≡ counts method path p before)
        × (y.lines ≡ logged method url_path (chosen_id fresh span sent) p lines)
  unfolding recover_middleware request_logger request_metrics request_id run_route write
      echo_error_handler counted_of
  passed span fresh (replies r none s') method path url_path sent before lines s =
      (none, _, refl, refl, refl, refl, (λ late. refl), refl, refl, refl)
  passed span fresh (replies r (some x) s') method path url_path sent before lines s =
      (some x, _, refl, refl, refl, refl, (λ late. refl), refl, refl, refl)
  passed span fresh (refuses x s') method path url_path sent before lines s =
      (some x, _, refl, refl, refl, refl, (λ late. refl), refl, refl, refl)
  passed span fresh (panics s') method path url_path sent before lines s =
      (none, _, refl, refl, refl, refl, (λ late. refl), refl, refl, refl)

  -- Where the tracing middleware does what otelecho documents, then whatever the handler of the route
  -- does, the client gets one response: the one that it wrote, the
  -- envelope of the error that it returned, or a 500 after a panic; the state is what the handler
  -- left, and the error that echo is given in the end changes nothing of it. The response carries the
  -- id that the client sent, or else the trace's, or else the fresh one, and so does the line of the
  -- log, which has the status that the client gets. The counter has the status of a response that was
  -- written by the handler, but 200 for an error that was returned without one; a panic is neither
  -- counted nor logged.
  pub every_request_is_answered :
      (otel : Next S → Next S) (span : Option String) (fresh : String) (route : S → Reply S)
      (method path url_path sent : String) (before : List Counted) (lines : List Line) (s : S)
      → Traces otel span
      → (e : Option EchoError) × (y : Exchange S) × (chain otel fresh
            (run_route route)
            (unanswered method path url_path sent before lines s)
          ≡ (returned e, y))
        × (y.written ≡ some (answer_of (route s)))
        × (y.status ≡ status_of (answer_of (route s)))
        × (y.state ≡ state_of (route s))
        × ((late : EchoError) → echo_error_handler late y ≡ y)
        × (y.response_id ≡ chosen_id fresh span sent)
        × (y.requests_total ≡ counts method path (route s) before)
        × (y.lines ≡ logged method url_path (chosen_id fresh span sent) (route s) lines)
  unfolding chain recover_middleware request_logger run_route
  every_request_is_answered otel span fresh route method path url_path sent before lines s traces =
      let x : Exchange S = unanswered method path url_path sent before lines s in
      let (e, y, reached, w, st, state, late, id, count, line) =
        passed span fresh (route s) method path url_path sent before lines s in
      (
        e,
        y,
        ap (λ p. recover_middleware (request_logger (λ _. p)) x)
              (traces (request_metrics (request_id fresh (run_route route))) x)
            ∙ reached,
        w,
        st,
        state,
        late,
        id,
        count,
        line,
      )
