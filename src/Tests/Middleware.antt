-- ===== src/Tests/Middleware.antt =====
-- The theorem on internal/middleware, and its middlewares at concrete requests.
use community_waste_collecti.Base.{ℕ, ◌≡◌, refl, false, [], ◌∷◌, Option, none, some}
use community_waste_collecti.Strconv.{itoa}
use community_waste_collecti.Handler.Responses.{refusal, failure, no_content, status_of}
use community_waste_collecti.Middleware.{
  EchoError, http_error, returned, Exchange, Reply, replies, refuses, panics, Next, error_envelope,
  echo_error_handler, rate_limited, run_route, chosen_id, chain,
}
use community_waste_collecti.Middleware.Answers.{
  settle, unanswered, answer_of, counts, logged, every_request_is_answered,
}

-- A tracing middleware that does what otelecho documents
abbrev traced : Next ℕ → Next ℕ
traced next x = settle (next (record x { trace_id = some "trace" }))

abbrev nowhere : ℕ → Reply ℕ
nowhere s = refuses (http_error 404) s

abbrev asked : Exchange ℕ
asked = unanswered "GET" "" "/favicon.ico" "" [] [] 7

every_request_is_answered_example :
    (e : Option EchoError) × (y : Exchange ℕ) × (chain traced "fresh" (run_route nowhere) asked
      ≡ (returned e, y))
    × (y.written ≡ some (answer_of (nowhere 7)))
    × (y.status ≡ status_of (answer_of (nowhere 7)))
    × (y.state ≡ 7)
    × ((late : EchoError) → echo_error_handler late y ≡ y)
    × (y.response_id ≡ chosen_id "fresh" (some "trace") "")
    × (y.requests_total ≡ counts "GET" "" (nowhere 7) [])
    × (y.lines ≡ logged "GET" "/favicon.ico" (chosen_id "fresh" (some "trace") "") (nowhere 7) [])
every_request_is_answered_example =
    every_request_is_answered traced (some "trace") "fresh" nowhere "GET" "" "/favicon.ico" "" [] []
      7 (λ next x. refl)

-- The client gets a 404, the counter a 200.
lost_page : answer_of (nowhere 7) ≡ failure (refusal 404 "NOT_FOUND")
unfolding error_envelope
lost_page = refl

counted_as_ok :
    counts "GET" "" (nowhere 7) []
    ≡ record { method = "GET"; path = "unknown"; status = "200" } ∷ []
unfolding itoa
counted_as_ok = refl

-- The burst is used up.
limited :
    rate_limited (λ (s : ℕ). (false, s)) (λ s. replies no_content none s) 7
    ≡ replies (failure (refusal 429 "RATE_LIMITED")) none 7
unfolding rate_limited
limited = refl

-- A handler that panics behind the metrics and the logger
panic_is_500 :
    (chain traced "fresh" (run_route (λ (s : ℕ). panics s)) asked).1.written
    ≡ some (failure (refusal 500 "INTERNAL_ERROR"))
unfolding chain run_route
panic_is_500 = refl

-- What the client sent goes before the trace, and the trace before a new one.
own_id : chosen_id "fresh" (some "trace") "mine" ≡ "mine"
unfolding chosen_id
own_id = refl

trace_goes_first : chosen_id "fresh" (some "trace") "" ≡ "trace"
unfolding chosen_id
trace_goes_first = refl

new_id : chosen_id "fresh" none "" ≡ "fresh"
unfolding chosen_id
new_id = refl
