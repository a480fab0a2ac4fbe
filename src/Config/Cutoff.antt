-- ===== src/Config/Cutoff.antt =====
-- The cutoff of the worker, from WORKER_ORGANIC_CUTOFF_DAYS to the query for expired pickups:
-- internal/config/config.go, internal/worker/organic_canceler.go and internal/repository/pickup.go.
use community_waste_collecti.Base.{ℕ, ◌-◌, ◌*◌, ◌≤◌, ◌≡◌, refl, true, none, arith, pos, negsuc}
use community_waste_collecti.Domain.{
  Time, WastePickup, organic, PickupStatus, waste_eq, pickup_status_eq,
}
use community_waste_collecti.Repository.Pickups.{is_expired_organic}
use community_waste_collecti.Worker.{new_organic_canceler, cutoff_time}
use community_waste_collecti.Config.{Numbers, Config, validate}
use community_waste_collecti.Config.Validity.{validate-Ranges}

-- The number of days does not fit into a time.Duration any more, and wraps round to a negative one.
wrapped_cutoff :
    (days : ℕ)
    → 106752 ≤ days
    → days ≤ 213503
    → (new_organic_canceler (pos days)).cutoff
      ≡ negsuc (18446744073709551615 - days * 86400000000000)
unfolding new_organic_canceler
wrapped_cutoff days low high = ground arith

-- Up to 106751 days the worker waits for just so many days.
moderate_cutoff_is_exact :
    (days : ℕ)
    → days ≤ 106751
    → (new_organic_canceler (pos days)).cutoff ≡ pos (days * 86400000000000)
unfolding new_organic_canceler
moderate_cutoff_is_exact days h = ground arith

module _ {Float : Type 0} (num : Numbers Float) (c : Config Float) (days : ℕ) where
  -- From 106752 to 213503 days the cutoff wraps round to a negative duration: Validate accepts every
  -- such number, in a configuration that is fine otherwise, and the worker then finds every pending
  -- organic pickup expired, one that was created just now among them.
  pub long_cutoff_expires_at_once :
      (now : Time) (p : WastePickup)
      → validate num c ≡ none
      → 106752 ≤ days
      → days ≤ 213503
      → p.type ≡ organic
      → p.status ≡ PickupStatus.pending
      → p.created_at ≤ now
      → (validate num (record c { worker_organic_cutoff_days = pos days }) ≡ none)
        × (is_expired_organic (cutoff_time now (new_organic_canceler (pos days)).cutoff) p ≡ true)
  unfolding cutoff_time is_expired_organic
  long_cutoff_expires_at_once now p ok low high kind status created =
      let v = (validate-Ranges num c).0 ok in
      (
        (validate-Ranges num (record c { worker_organic_cutoff_days = pos days })).1 (record {
          organic_days = (days, refl, omega (arith, low));
          interval = v.interval;
          rps = v.rps;
          burst = v.burst;
          upload = v.upload;
          port = v.port;
          database = v.database;
          open_conns = v.open_conns;
          idle_conns = v.idle_conns;
        }),
        rw (kind, status, wrapped_cutoff days low high) (ground arith),
      )
