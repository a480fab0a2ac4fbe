-- ===== src/Worker.antt =====
-- internal/worker/organic_canceler.go: BR-04. A query that outlives its timeout is a fault of its
-- turn. Panics are left out: no action of the model has one.
pub mod Legality
pub mod Expiry
pub mod Liveness
use community_waste_collecti.Base.{
  ℕ, zero, suc, ◌+◌, ◌-◌, ◌==◌, nat_eq, if◌then◌else◌, ℤ, pos, negsuc, times64, List, [], ◌∷◌, map,
  length,
}
use community_waste_collecti.Domain.{Uuid, Time, organic, WastePickup}
use community_waste_collecti.Database.{
  Env, World, Action, pure, ◌>>=◌, ◌>>◌, emit, clock, worker_cycles_total,
  worker_expired_found_total, organic_cancels_total, pickups_canceled_total, auto,
}
use community_waste_collecti.Repository.Pickups.{find_expired_organic, bulk_cancel}

-- The durations are nanoseconds. The interval and the timeout of a query drive timers, which are
-- left to the surroundings.
pub record OrganicCanceler : Type 0 where
  pub cutoff : ℤ

-- `time.Duration(cfg.WorkerOrganicCutoffDays) * 24 * time.Hour`, in 64 bits
unfoldable pub new_organic_canceler : ℤ → OrganicCanceler
new_organic_canceler cutoff_days = record { cutoff = times64 cutoff_days 86400000000000 }

-- `now.Add(-w.cutoff)`, where the least int64 is its own negation; nothing is older than the time 0.
unfoldable pub cutoff_time : Time → ℤ → Time
cutoff_time now (pos cutoff) = now - cutoff
cutoff_time now (negsuc n) =
    if n == 9223372036854775807 then now - 9223372036854775808 else now + suc n

abbrev pub ids_of : List WastePickup → List Uuid
ids_of = map λ p. p.id

unfoldable pub cancel_found : List WastePickup → Action (Unit {0})
cancel_found [] = pure tt
cancel_found (p ∷ ps) = do
  bulk_cancel (ids_of (p ∷ ps))
  emit (organic_cancels_total (length (p ∷ ps)))
  emit (pickups_canceled_total organic auto (length (p ∷ ps)))

-- One cycle. `err` stands for an early return after a log line: the caller does not see it.
unfoldable pub run : OrganicCanceler → Action (Unit {0})
run c = do
  emit worker_cycles_total
  now ← clock
  pickups ← find_expired_organic (cutoff_time now c.cutoff)
  emit (worker_expired_found_total (length pickups))
  cancel_found pickups

-- The loop of `Start` up to the cancellation of its context: one cycle for each tick before it.
unfoldable pub start : OrganicCanceler → ℕ → Env → World → World
start c zero env w = w
start c (suc ticks) env w = start c ticks env (run c env w).1
