-- ===== src/RateLimit.antt =====
-- internal/middleware/ratelimit.go. The token bucket of golang.org/x/time/rate is a parameter: a new
-- one for the configured rate, and `Allow`, which reads the clock right after the middleware and is
-- given the same time. Requests and sweeps come one after another.
pub mod Clients
pub mod Isolation
use community_waste_collecti.Base.{
  ℕ, suc, ◌-◌, Bool, true, List, [], ◌∷◌, Option, none, some, Comparable, ◌==◌, ltb, if◌then◌else◌,
}
use community_waste_collecti.Table.{affected, delete}
use community_waste_collecti.Domain.{Time}

-- An entry of the map `limiters`.
pub record IpLimiter (Ip Limiter : Type 0) : Type 0 where
  pub ip : Ip
  pub limiter : Limiter
  pub last_seen : Time

-- The map, and the gauge RateLimitActiveClients.
pub record Limiters (Ip Limiter : Type 0) : Type 0 where
  pub clients : List (IpLimiter Ip Limiter)
  pub active : ℕ

pub data Event (Ip : Type 0) : Type 0 where
  request : Ip → Time → Event Ip
  sweep : Time → Event Ip

-- `30 * time.Minute`
abbrev pub evict_threshold : ℕ
evict_threshold = 1800000000000

module _ {Ip Limiter : Type 0} ⦃c : Comparable Ip⦄ where
  unfoldable pub lookup : Ip → List (IpLimiter Ip Limiter) → Option (IpLimiter Ip Limiter)
  lookup ip [] = none
  lookup ip (x ∷ xs) = if x.ip == ip then some x else lookup ip xs

  -- A write through the pointer that the map holds.
  unfoldable pub put :
      IpLimiter Ip Limiter → List (IpLimiter Ip Limiter) → List (IpLimiter Ip Limiter)
  put y [] = []
  put y (x ∷ xs) = let rest = put y xs in if x.ip == y.ip then y ∷ xs else x ∷ rest

  unfoldable pub is_idle : Time → IpLimiter Ip Limiter → Bool
  is_idle now x = ltb x.last_seen (now - evict_threshold)

  unfoldable pub sweep_once : Time → Limiters Ip Limiter → ℕ × Limiters Ip Limiter
  sweep_once now s =
      let removed = affected (is_idle now) s.clients in
      (removed, record { clients = delete (is_idle now) s.clients; active = s.active - removed })

  module _ (new_limiter : Limiter) (allow : Time → Limiter → Bool × Limiter) where
    -- The middleware up to its verdict: whether `next` is called.
    unfoldable pub rate_limiter : Ip → Time → Limiters Ip Limiter → Bool × Limiters Ip Limiter
    rate_limiter ip now s = elim (lookup ip s.clients) [
      | some x ↦
          let (allowed, l) = allow now x.limiter in
          (
            allowed,
            record s { clients = put (record x { limiter = l; last_seen = now }) s.clients },
          )
      | none ↦
          let (allowed, l) = allow now new_limiter in
          (
            allowed,
            record {
              clients = record { ip = ip; limiter = l; last_seen = now } ∷ s.clients;
              active = suc s.active;
            },
          )
    ]

    unfoldable pub handle : Event Ip → Limiters Ip Limiter → Limiters Ip Limiter
    handle (request ip now) s = (rate_limiter ip now s).1
    handle (sweep now) s = (sweep_once now s).1

    unfoldable pub handle_all : List (Event Ip) → Limiters Ip Limiter → Limiters Ip Limiter
    handle_all [] s = s
    handle_all (e ∷ es) s = handle_all es (handle e s)

  -- When the process starts.
  abbrev pub no_clients : Limiters Ip Limiter
  no_clients = record { clients = []; active = 0 }
