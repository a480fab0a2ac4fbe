-- ===== src/Worker/Legality.antt =====
-- Legality of the cycles of internal/worker/organic_canceler.go.
use community_waste_collecti.Base.{ℕ, zero, suc, inl, inr, List, [], ◌∷◌}
use community_waste_collecti.Domain.{Uuid, Time, WastePickup, Result-cases}
use community_waste_collecti.Database.{Env, World, ◌>>=◌, ◌>>◌, select_from, worker_cycles_total}
use community_waste_collecti.Database.Integrity.{Legal, Rely, Legal-refl, Legal-trans}
use community_waste_collecti.Database.Calls.{seen, query-Legal}
use community_waste_collecti.Repository.Pickups
use community_waste_collecti.Repository.Pickups.{find_expired_organic, bulk_cancel}
use community_waste_collecti.Repository.Pickups.Legality.{bulk_cancel_sql-Legal}
use community_waste_collecti.Service.Pickups.Legality.{Keeps}
use community_waste_collecti.Worker.{cutoff_time, OrganicCanceler, ids_of, cancel_found, run, start}

module _ (env : Env) (rely : Rely env) where
  find_expired-Legal : (before : Time) (w : World) → Keeps w (find_expired_organic before env w)
  unfolding find_expired_organic
  find_expired-Legal before w = query-Legal env rely (select_from _) w (Legal-refl _)

  bulk_cancel-Legal : (ids : List Uuid) (w : World) → Keeps w (bulk_cancel ids env w)
  unfolding bulk_cancel
  bulk_cancel-Legal [] w = Legal-refl w.db
  bulk_cancel-Legal (i ∷ is) w =
      query-Legal env rely (Pickups.bulk_cancel_sql (i ∷ is)) w
        (bulk_cancel_sql-Legal (i ∷ is) (env w.calls).now (seen env w))

  cancel_found-Legal : (ps : List WastePickup) (w : World) → Keeps w (cancel_found ps env w)
  unfolding cancel_found
  cancel_found-Legal [] w = Legal-refl w.db
  cancel_found-Legal (p ∷ ps) w = elim (Result-cases (bulk_cancel (ids_of (p ∷ ps)) env w).0) [
    | inl (a, e) ↦ rw (e, ◌>>◌, ◌>>=◌) (bulk_cancel-Legal (ids_of (p ∷ ps)) w)
    | inr (x, e) ↦ rw (e, ◌>>◌, ◌>>=◌) (bulk_cancel-Legal (ids_of (p ∷ ps)) w)
  ]

  pub run-Legal : (c : OrganicCanceler) (w : World) → Keeps w (run c env w)
  unfolding run
  run-Legal c w =
      let before : Time = cutoff_time (env w.calls).now c.cutoff in
      let w' : World = record w {
        calls = suc w.calls;
        metrics = worker_cycles_total ∷ w.metrics;
      } in
      elim (Result-cases (find_expired_organic before env w').0) [
        | inr (x, e) ↦ rw (e, ◌>>=◌) (find_expired-Legal before w')
        | inl (ps, e) ↦
            rw (e, ◌>>=◌) (Legal-trans (find_expired-Legal before w') (cancel_found-Legal ps _))
      ]

  pub start-Legal :
      (c : OrganicCanceler) (ticks : ℕ) (w : World) → Legal w.db (start c ticks env w).db
  unfolding start
  start-Legal c zero w = Legal-refl w.db
  start-Legal c (suc ticks) w = Legal-trans (run-Legal c w) (start-Legal c ticks (run c env w).1)
