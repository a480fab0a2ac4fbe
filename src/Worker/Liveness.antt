-- ===== src/Worker/Liveness.antt =====
-- BR-04 over runs of the loop of internal/worker/organic_canceler.go, beside other sessions and on a
-- connection that fails.
use community_waste_collecti.Base.{
  ℕ, zero, suc, ◌+◌, ◌≡◌, ◌≢◌, ◌<◌, sym, ◌∙◌, ap, subst, inl, inr, some, arith, Option-cases,
  nat_eq,
}
use mathlib.Core.Path.{subst₂}
use community_waste_collecti.Table.{find, set_if}
use community_waste_collecti.Table.Laws.{find-lt}
use community_waste_collecti.Domain.{
  Uuid, Time, WastePickup, pickup_row, PickupStatus, pickup_status_eq, organic, waste_eq,
}
use community_waste_collecti.Database.{Env, World}
use community_waste_collecti.Database.Integrity.{
  Inv, Rely, ◌⟶*◌, stay, then, Edge, PickupStep, PickupBecomes, Evolves-trans,
}
use community_waste_collecti.Repository.Pickups.{is_expired_organic}
use community_waste_collecti.Worker.{cutoff_time, OrganicCanceler, run, start}
use community_waste_collecti.Worker.Expiry.{withdrawn, Undisturbed, cycle_row}
use community_waste_collecti.Worker.Legality.{run-Legal, start-Legal}

-- No status leads back to `pending`.
leaves_pending : {s t : PickupStatus} → s ⟶* t → s ≢ PickupStatus.pending → t ≢ PickupStatus.pending
leaves_pending stay h = h
leaves_pending ((then) (Edge.schedules) p) h = leaves_pending p (λ e. cc e)
leaves_pending ((then) (Edge.completes) p) h = leaves_pending p (λ e. cc e)
leaves_pending ((then) (Edge.drops) p) h = leaves_pending p (λ e. cc e)
leaves_pending ((then) (Edge.withdraws) p) h = leaves_pending p (λ e. cc e)

zero-add : (n : ℕ) → zero + n ≡ n
zero-add n = omega arith

suc-add : (m n : ℕ) → suc m + n ≡ suc (m + n)
suc-add m n = omega arith

start-add :
    (c : OrganicCanceler) (before after : ℕ) (env : Env) (w : World)
    → start c (before + after) env w ≡ start c after env (start c before env w)
unfolding start
start-add c zero after env w = ap (λ (n : ℕ). start c n env w) (zero-add after)
start-add c (suc n) after env w =
    ap (λ (m : ℕ). start c m env w) (suc-add n after) ∙ start-add c n after env (run c env w).1

expired_leaves_pending :
    (before now : Time) (r : WastePickup)
    → r.type ≡ organic
    → r.created_at < before
    → (set_if (is_expired_organic before) (withdrawn now) r).status ≢ PickupStatus.pending
unfolding is_expired_organic
expired_leaves_pending before now r kind old = ground arith

-- Beside sessions that change the tables legally, and whatever faults its connection has: an organic
-- pickup is no longer pending, if it is there at all, once the worker has had a cycle that read the
-- clock after the pickup had expired, and both of whose statements were delivered without a change
-- of the tables just before them. What the cycles before and after that one meet does not matter.
pub expired_is_not_left_pending :
    (c : OrganicCanceler) (env : Env) (rely : Rely env) (w : World) (i : Uuid) (p : WastePickup)
    (before after : ℕ)
    → Inv w.db
    → find i w.db.pickups ≡ some p
    → p.type ≡ organic
    → p.created_at < cutoff_time (env (start c before env w).calls).now c.cutoff
    → Undisturbed env (suc (start c before env w).calls)
    → Undisturbed env (suc (suc (start c before env w).calls))
    → (q : WastePickup) → find i (start c (before + suc after) env w).db.pickups ≡ some q
    → q.status ≢ PickupStatus.pending
unfolding start
expired_is_not_left_pending c env rely w i p before after v found kind old reading writing q
      at_end =
    let u : World = start c before env w in
    let (vu, ev) = start-Legal env rely c before w v in
    let (vr, cycle) = run-Legal env rely c u vu in
    let (vs, rest) = start-Legal env rely c after (run c env u).1 vr in
    let there : find i (start c after env (run c env u).1).db.pickups ≡ some q =
      ap (λ (s : World). find i s.db.pickups) (sym (start-add c before (suc after) env w))
      ∙ at_end in
    let key = find-lt i w.db.next_id p w.db.pickups v.pickup_keys found in
    let key_u : i < u.db.next_id = omega (arith, key, ev.supply) in
    let key_r : i < (run c env u).1.db.next_id = omega (arith, key_u, cycle.supply) in
    elim (Option-cases (find i u.db.pickups)) [
      | inl gone ↦
          absurd (subst₂ PickupStep gone there ((Evolves-trans cycle rest).pickups i key_u))
      | inr (r, at_r) ↦
          let was : PickupBecomes p r = subst₂ PickupStep found at_r (ev.pickups i key) in
          let row = cycle_row c env u i r reading writing vu at_r in
          let is : PickupBecomes _ q = subst₂ PickupStep row there (rest.pickups i key_r) in
          leaves_pending is.lifecycle (
            expired_leaves_pending (cutoff_time (env u.calls).now c.cutoff)
              (env (suc (suc u.calls))).now r (was.same_type ∙ kind)
              (subst (λ (t : ℕ). t < cutoff_time (env u.calls).now c.cutoff) (sym was.same_creation)
                old))
    ]
