-- ===== src/Server/Replies.antt =====
-- The replies of the routes of the server: when one is a panic, and what they leave of what they share.
use community_waste_collecti.Base.{
  ℕ, suc, ◌+◌, ◌≤◌, ◌≡◌, inl, inr, String, Bool, List, [], ◌∷◌, Option, Comparable, length, arith,
  Bool-cases, Option-cases,
}
use community_waste_collecti.Domain.{Time}
use community_waste_collecti.Database.{Env}
use community_waste_collecti.Database.Integrity.{Legal, Rely, Legal-refl}
use community_waste_collecti.Storage.{S3Client}
use community_waste_collecti.Handler.Requests.{Packages, Request}
use community_waste_collecti.Handler.Routes.{Endpoint, Handler}
use community_waste_collecti.Handler.Between.Writes.{serve-Legal}
use community_waste_collecti.Middleware.{
  EchoError, Counted, Line, Reply, replies, refuses, panics, Next, rate_limited,
}
use community_waste_collecti.Middleware.Answers.{state_of, counts, logged}
use community_waste_collecti.RateLimit.{rate_limiter}
use community_waste_collecti.RateLimit.Clients.{Valid, request-Valid}
use community_waste_collecti.Server.{
  Ending, returns, panics_at_once, panics_late, Guard, per_ip_limit, json_body_limit, guards_of,
  Target, routed, unrouted, Arrival, Shared, allows, guarded, endpoint_reply, reply_to,
}

-- How often a reply is counted and logged
abbrev pub recorded : {S : Type 0} → Reply S → ℕ
recorded (replies r e s) = 1
recorded (refuses e s) = 1
recorded (panics s) = 0

-- How often a request is counted and logged for certain
abbrev pub calm : Ending → ℕ
calm (returns e) = 1
calm panics_at_once = 0
calm panics_late = 0

calm_le : (x : Ending) → calm x ≤ 1
calm_le (returns e) = omega arith
calm_le panics_at_once = omega arith
calm_le panics_late = omega arith

pub recorded_le : {S : Type 0} (p : Reply S) → recorded p ≤ 1
recorded_le (replies r e s) = omega arith
recorded_le (refuses e s) = omega arith
recorded_le (panics s) = omega arith

pub one_more : (n : ℕ) → suc n ≡ 1 + n
one_more n = omega arith

pub length-counts :
    {S : Type 0} (method path : String) (p : Reply S) (before : List Counted)
    → length (counts method path p before) ≡ recorded p + length before
length-counts method path (replies r e s) before = one_more (length before)
length-counts method path (refuses e s) before = one_more (length before)
length-counts method path (panics s) before = omega arith

pub length-logged :
    {S : Type 0} (method url_path id : String) (p : Reply S) (before : List Line)
    → length (logged method url_path id p before) ≡ recorded p + length before
length-logged method url_path id (replies r e s) before = one_more (length before)
length-logged method url_path id (refuses e s) before = one_more (length before)
length-logged method url_path id (panics s) before = omega arith

module _ {Ip Limiter Body Decimal : Type 0} ⦃c : Comparable Ip⦄ (pkg : Packages Body Decimal)
    (s3 : S3Client) (h : Handler) (new_limiter : Limiter) (allow : Time → Limiter → Bool × Limiter)
    (body_limit : Body → Option EchoError)
    (otel : Option String → Next (Shared Ip Limiter) → Next (Shared Ip Limiter)) (env : Env) where
  abbrev pub Route : Type 0
  Route = Shared Ip Limiter → Reply (Shared Ip Limiter)

  -- A reply that leaves the tables legally changed, and the limiter valid, and is a panic only where
  -- the handler panics
  pub record Fine (x : Ending) (s : Shared Ip Limiter) (p : Reply (Shared Ip Limiter))
      : Type 0 where
    pub recorded_for : calm x ≤ recorded p
    pub legal : Legal s.world.db (state_of p).world.db
    pub valid : Valid s.limiters → Valid (state_of p).limiters

  abbrev limit : Ip → Time → Shared Ip Limiter → Bool × Shared Ip Limiter
  limit = allows pkg s3 h new_limiter allow body_limit otel env

  limited-Fine :
      (x : Ending) (ip : Ip) (now : Time) (next : Route)
      → ((s : Shared Ip Limiter) → Fine x s (next s))
      → (s : Shared Ip Limiter) → Fine x s (rate_limited (limit ip now) next s)
  unfolding rate_limited
  limited-Fine x ip now next k s =
      let (allowed, l) = rate_limiter new_limiter allow ip now s.limiters in
      let s' : Shared Ip Limiter = record s { limiters = l } in
      let touched = request-Valid new_limiter allow ip now s.limiters in
      elim (Bool-cases allowed) [
        | inl passes ↦
            let f = k s' in
            rw passes (record {
              recorded_for = f.recorded_for;
              legal = f.legal;
              valid = λ v. f.valid (touched v);
            })
        | inr stops ↦
            rw stops
              (record { recorded_for = calm_le x; legal = Legal-refl s.world.db; valid = touched })
      ]

  abbrev through : List Guard → Arrival Ip Body → Request Body → Route → Route
  through = guarded pkg s3 h new_limiter allow body_limit otel env

  guarded-Fine :
      (x : Ending) (gs : List Guard) (a : Arrival Ip Body) (r : Request Body) (next : Route)
      → ((s : Shared Ip Limiter) → Fine x s (next s))
      → (s : Shared Ip Limiter) → Fine x s (through gs a r next s)
  unfolding guarded rate_limited
  guarded-Fine x [] a r next k s = k s
  guarded-Fine x (json_body_limit ∷ gs) a r next k s = elim (Option-cases (body_limit r.body)) [
    | inl small ↦ rw (small, guarded) (guarded-Fine x gs a r next k s)
    | inr (y, big) ↦
        rw (big, guarded)
          (record { recorded_for = calm_le x; legal = Legal-refl s.world.db; valid = λ v. v })
  ]
  guarded-Fine x (per_ip_limit ∷ gs) a r next k s =
      limited-Fine x a.ip a.at (through gs a r next) (guarded-Fine x gs a r next k) s

  abbrev pub reply : Arrival Ip Body → Target Body → Route
  reply = reply_to pkg s3 h new_limiter allow body_limit otel env

  module _ (rely : Rely env) where
    endpoint-Fine :
        (x : Ending) (e : Endpoint) (r : Request Body) (s : Shared Ip Limiter)
        → Fine x s (endpoint_reply pkg s3 h new_limiter allow body_limit otel env e r x s)
    unfolding endpoint_reply
    endpoint-Fine (returns result) e r s = record {
      recorded_for = omega arith;
      legal = serve-Legal pkg s3 h env rely e r s.world;
      valid = λ v. v;
    }
    endpoint-Fine panics_at_once e r s = record {
      recorded_for = omega arith;
      legal = Legal-refl s.world.db;
      valid = λ v. v;
    }
    endpoint-Fine panics_late e r s = record {
      recorded_for = omega arith;
      legal = serve-Legal pkg s3 h env rely e r s.world;
      valid = λ v. v;
    }

    pub reply-Fine :
        (a : Arrival Ip Body) (t : Target Body) (s : Shared Ip Limiter)
        → Fine a.ending s (reply a t s)
    unfolding reply_to
    reply-Fine a (unrouted x path) s = record {
      recorded_for = calm_le a.ending;
      legal = Legal-refl s.world.db;
      valid = λ v. v;
    }
    reply-Fine a (routed e r) s =
        guarded-Fine a.ending (guards_of e) a r
          (endpoint_reply pkg s3 h new_limiter allow body_limit otel env e r a.ending)
          (endpoint-Fine a.ending e r) s
