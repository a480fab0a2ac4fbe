-- ===== src/Tests/RateLimit.antt =====
-- The theorems on the rate limiter, with a bucket that is a number of tokens that nobody refills.
use community_waste_collecti.Base.{
  ℕ, ◌-◌, ◌≡◌, refl, List, [], ◌∷◌, Bool, true, false, some, nat_eq, ◌==◌, length, if◌then◌else◌,
}
use community_waste_collecti.Domain.{Time}
use community_waste_collecti.Table.{affected, delete, select}
use community_waste_collecti.RateLimit.{
  Event, request, sweep, lookup, put, rate_limiter, is_idle, sweep_once, handle, handle_all,
  no_clients,
}
use community_waste_collecti.RateLimit.Isolation.{own, clients_are_independent}
use community_waste_collecti.RateLimit.Clients.{gauge_counts_clients, sweep_spares_active_clients}

abbrev pub take_token : Time → ℕ → Bool × ℕ
take_token now tokens = if tokens == 0 then (false, 0) else (true, tokens - 1)

-- Two clients, the second of which comes back after half an hour.
abbrev traffic : List (Event ℕ)
traffic = request 7 1000 ∷ request 8 1000 ∷ request 8 1800000002000 ∷ sweep 1800000001000 ∷ []

two_clients :
    (handle_all 5 take_token traffic no_clients).active
    ≡ length (handle_all 5 take_token traffic no_clients).clients
two_clients = gauge_counts_clients 5 take_token traffic

-- A sweep that finds client 7 idle leaves client 8 its bucket.
active_client_is_spared :
    lookup 8 (sweep_once 1800000001001 (handle_all 5 take_token traffic no_clients)).1.clients
    ≡ some (record { ip = 8; limiter = 3; last_seen = 1800000002000 })
unfolding handle_all handle rate_limiter lookup put sweep_once is_idle affected delete select
active_client_is_spared =
    sweep_spares_active_clients 5 take_token traffic 1800000001001 8
      (record { ip = 8; limiter = 3; last_seen = 1800000002000 }) refl

-- Client 8 among others, and alone
clients_are_independent_example :
    ((rate_limiter 5 take_token 8 1800000002001 (handle_all 5 take_token traffic no_clients)).0
      ≡ (rate_limiter 5 take_token 8 1800000002001
          (handle_all 5 take_token (own 8 traffic) no_clients)).0)
    × (lookup 8 (handle_all 5 take_token traffic no_clients).clients
        ≡ lookup 8 (handle_all 5 take_token (own 8 traffic) no_clients).clients)
clients_are_independent_example = clients_are_independent 5 take_token 8 traffic 1800000002001

alone : own 8 traffic ≡ request 8 1000 ∷ request 8 1800000002000 ∷ sweep 1800000001000 ∷ []
alone = refl
