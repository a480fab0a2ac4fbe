-- ===== src/Server/Integrity.antt =====
-- What any sequence of requests leaves of the tables, the rate limiter, the counters and the log.
use mathlib.Core.Path.{subst₂}
use community_waste_collecti.Base.{
  ℕ, ◌+◌, ◌≤◌, ◌≡◌, sym, ◌∙◌, ap, subst, String, Bool, List, [], ◌∷◌, Option, Comparable, length,
  arith,
}
use community_waste_collecti.Domain.{Time}
use community_waste_collecti.Database.{Env}
use community_waste_collecti.Database.Integrity.{Inv, Evolves, Legal, Rely, Legal-refl, Legal-trans}
use community_waste_collecti.Storage.{S3Client}
use community_waste_collecti.Handler.Requests.{Packages}
use community_waste_collecti.Handler.Routes.{Handler}
use community_waste_collecti.Middleware.{EchoError, Counted, Line, Next, chosen_id}
use community_waste_collecti.Middleware.Answers.{Traces, every_request_is_answered}
use community_waste_collecti.RateLimit.Clients.{Valid, sweep-Valid}
use community_waste_collecti.Server.Replies.{
  one_more, recorded_le, calm, length-counts, length-logged, reply, reply-Fine,
}
use community_waste_collecti.Worker.Legality.{run-Legal}
use community_waste_collecti.Server.{
  Happening, request, sweep, cycle, happen, happen_all, Arrival, Shared, Process, add_answer,
  path_of, arrive,
}

-- The requests among what happens
abbrev pub requests_of : {Ip Body : Type 0} → List (Happening Ip Body) → ℕ
requests_of [] = 0
requests_of (request a ∷ xs) = 1 + requests_of xs
requests_of (sweep now ∷ xs) = requests_of xs
requests_of (cycle c ∷ xs) = requests_of xs

-- The requests among them whose handlers do not panic
abbrev pub calm_of : {Ip Body : Type 0} → List (Happening Ip Body) → ℕ
calm_of [] = 0
calm_of (request a ∷ xs) = calm a.ending + calm_of xs
calm_of (sweep now ∷ xs) = calm_of xs
calm_of (cycle c ∷ xs) = calm_of xs

requests_of-cons :
    {Ip Body : Type 0} (x : Happening Ip Body) (xs : List (Happening Ip Body))
    → (requests_of (x ∷ []) + requests_of xs ≡ requests_of (x ∷ xs))
      × (calm_of (x ∷ []) + calm_of xs ≡ calm_of (x ∷ xs))
requests_of-cons (request a) xs = (omega arith, omega arith)
requests_of-cons (sweep now) xs = (omega arith, omega arith)
requests_of-cons (cycle c) xs = (omega arith, omega arith)

module _ {Ip Limiter Body Decimal : Type 0} ⦃c : Comparable Ip⦄ (pkg : Packages Body Decimal)
    (s3 : S3Client) (h : Handler) (new_limiter : Limiter) (allow : Time → Limiter → Bool × Limiter)
    (body_limit : Body → Option EchoError)
    (otel : Option String → Next (Shared Ip Limiter) → Next (Shared Ip Limiter)) (env : Env) where
  module _ (rely : Rely env) where
    -- A process that may follow another, after n requests, m of them with handlers that do not panic
    record Follows (n m : ℕ) (p q : Process Ip Limiter) : Type 0 where
      legal : Legal p.shared.world.db q.shared.world.db
      valid : Valid p.shared.limiters → Valid q.shared.limiters
      answered : length q.answers ≡ n + length p.answers
      counted : m + length p.requests_total ≤ length q.requests_total
      no_more : length q.requests_total ≤ n + length p.requests_total
      logged : length q.lines + length p.requests_total ≡ length q.requests_total + length p.lines

    module _ (traces : (span : Option String) → Traces (otel span) span) where
      abbrev next_process : Arrival Ip Body → Process Ip Limiter → Process Ip Limiter
      next_process = arrive pkg s3 h new_limiter allow body_limit otel env

      arrive-Follows :
          (a : Arrival Ip Body) (p : Process Ip Limiter)
          → Follows 1 (calm a.ending) p (next_process a p)
      unfolding arrive
      arrive-Follows a p =
          let (e, y, way, written, st, state, late, id, count, line) =
            every_request_is_answered (otel a.span) a.span a.fresh
              (reply pkg s3 h new_limiter allow body_limit otel env a a.target) a.method
              (path_of a.target) a.url_path a.sent_id p.requests_total p.lines p.shared
              (traces a.span) in
          let fine =
            reply-Fine pkg s3 h new_limiter allow body_limit otel env rely a a.target p.shared in
          let p' = reply pkg s3 h new_limiter allow body_limit otel env a a.target p.shared in
          let counts =
            ap (λ (xs : List Counted). length xs) count
            ∙ length-counts a.method (path_of a.target) p' p.requests_total in
          let logs =
            ap (λ (xs : List Line). length xs) line
            ∙ length-logged a.method a.url_path (chosen_id a.fresh a.span a.sent_id) p' p.lines in
          rw way (record {
            legal =
                subst (λ (s : Shared Ip Limiter). Legal p.shared.world.db s.world.db) (sym state)
                  fine.legal;
            valid =
                λ v. subst (λ (s : Shared Ip Limiter). Valid s.limiters) (sym state) (fine.valid v);
            answered =
                ap (λ o. length (add_answer o p.answers)) written ∙ one_more (length p.answers);
            counted = omega (arith, counts, fine.recorded_for);
            no_more = omega (arith, counts, recorded_le p');
            logged = omega (arith, counts, logs);
          })

      Follows-trans :
          {m n k l : ℕ} {p q r : Process Ip Limiter}
          → Follows m k p q
          → Follows n l q r
          → Follows (m + n) (k + l) p r
      Follows-trans f g = record {
        legal = Legal-trans f.legal g.legal;
        valid = λ v. g.valid (f.valid v);
        answered = omega (arith, f.answered, g.answered);
        counted = omega (arith, f.counted, g.counted);
        no_more = omega (arith, f.no_more, g.no_more);
        logged = omega (arith, f.logged, g.logged);
      }

      abbrev next_of : Happening Ip Body → Process Ip Limiter → Process Ip Limiter
      next_of = happen pkg s3 h new_limiter allow body_limit otel env

      happen-Follows :
          (x : Happening Ip Body) (p : Process Ip Limiter)
          → Follows (requests_of (x ∷ [])) (calm_of (x ∷ [])) p (next_of x p)
      unfolding happen
      happen-Follows (request a) p =
          let alone : calm a.ending ≡ calm a.ending + 0 = omega arith in
          subst (λ m. Follows 1 m p (next_process a p)) alone (arrive-Follows a p)
      happen-Follows (sweep now) p = record {
        legal = Legal-refl p.shared.world.db;
        valid = sweep-Valid now p.shared.limiters;
        answered = omega arith;
        counted = omega arith;
        no_more = omega arith;
        logged = omega arith;
      }
      happen-Follows (cycle canceler) p = record {
        legal = run-Legal env rely canceler p.shared.world;
        valid = λ v. v;
        answered = omega arith;
        counted = omega arith;
        no_more = omega arith;
        logged = omega arith;
      }

      abbrev after : List (Happening Ip Body) → Process Ip Limiter → Process Ip Limiter
      after = happen_all pkg s3 h new_limiter allow body_limit otel env

      after-Follows :
          (xs : List (Happening Ip Body)) (p : Process Ip Limiter)
          → Follows (requests_of xs) (calm_of xs) p (after xs p)
      unfolding happen_all
      after-Follows [] p = record {
        legal = Legal-refl p.shared.world.db;
        valid = λ v. v;
        answered = omega arith;
        counted = omega arith;
        no_more = omega arith;
        logged = omega arith;
      }
      after-Follows (x ∷ xs) p =
          let (n, m) = requests_of-cons x xs in
          subst₂ (λ n m. Follows n m p (after xs (next_of x p))) n m
            (Follows-trans (happen-Follows x p) (after-Follows xs (next_of x p)))

      -- Behind a tracing middleware that does what otelecho documents, with a span for each request:
      -- any requests, whether routed or not, refused by the limiter, by the body limit or by a handler,
      -- served, or ended by a panic of their handler, with any sweeps of the limiter and cycles of the
      -- worker between them, keep the integrity of the tables and are a legal history of every row,
      -- beside other sessions that change the tables legally and on a connection that fails at will;
      -- the gauge of the limiter is the number of its clients in the end; each request has got one
      -- response; as many are counted as logged, each of them once, and all but those whose handlers
      -- panic.
      pub server_keeps_integrity :
          (xs : List (Happening Ip Body)) (p : Process Ip Limiter)
          → Inv p.shared.world.db
          → Valid p.shared.limiters
          → Inv (after xs p).shared.world.db
            × Evolves p.shared.world.db (after xs p).shared.world.db
            × ((after xs p).shared.limiters.active ≡ length (after xs p).shared.limiters.clients)
            × (length (after xs p).answers ≡ requests_of xs + length p.answers)
            × (calm_of xs + length p.requests_total ≤ length (after xs p).requests_total)
            × (length (after xs p).requests_total ≤ requests_of xs + length p.requests_total)
            × (length (after xs p).lines + length p.requests_total
                ≡ length (after xs p).requests_total + length p.lines)
      server_keeps_integrity xs p v u =
          let f = after-Follows xs p in
          let (kept, history) = f.legal v in
          (kept, history, (f.valid u).counted, f.answered, f.counted, f.no_more, f.logged)
