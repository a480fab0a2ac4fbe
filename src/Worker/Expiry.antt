-- ===== src/Worker/Expiry.antt =====
-- BR-04, what a cycle of internal/worker/organic_canceler.go does to each pickup.
use community_waste_collecti.Base.{
  ℕ, suc, ◌≤◌, ◌≡◌, refl, sym, ◌∙◌, ap, subst, inl, inr, Bool, false, ◌&&◌, List, [], ◌∷◌, length,
  some, ◌==◌, nat_eq, Bool-cases, arith, if◌then◌else◌,
}
use community_waste_collecti.Table.{find, select, set_if, Below}
use community_waste_collecti.Table.Laws.{find-key, select-Below}
use community_waste_collecti.Table.Found.{updated_to}
use community_waste_collecti.Domain.{
  Uuid, Time, WastePickup, pickup_row, canceled, pickup_status_eq, organic, waste_eq, Result, ok,
}
use community_waste_collecti.Database.{
  Db, Env, World, delivered, ◌>>◌, query, worker_cycles_total, worker_expired_found_total, emit,
  organic_cancels_total, pickups_canceled_total, auto,
}
use community_waste_collecti.Database.Integrity.{Inv}
use community_waste_collecti.Database.Calls.{seen, bind-ok}
use community_waste_collecti.Repository.Pickups.{
  any_of, is_cancellable, is_expired_organic, find_expired_organic, bulk_cancel, bulk_cancel_sql,
}
use community_waste_collecti.Worker.{cutoff_time, OrganicCanceler, ids_of, cancel_found, run}

-- What a pickup becomes when it is canceled.
abbrev pub withdrawn : Time → WastePickup → WastePickup
withdrawn now p = record p { status = canceled; updated_at = now }

any_of-above : (n i : ℕ) (xs : List WastePickup) → Below n xs → n ≤ i → any_of (ids_of xs) i ≡ false
unfolding any_of
any_of-above n i [] b h = refl
any_of-above n i (x ∷ xs) b h = ground (arith, any_of-above x.id i xs b.1)

-- A row is in the answer of a SELECT just if it satisfies the clause.
any_of-select :
    (test : WastePickup → Bool) (n i : ℕ) (xs : List WastePickup) {p : WastePickup}
    → Below n xs
    → find i xs ≡ some p
    → any_of (ids_of (select test xs)) i ≡ test p
unfolding any_of find select
any_of-select test n i [] b e = cc
any_of-select test n i (x ∷ xs) {p} b e = elim (Bool-cases (x.id == i)) [
  | inl hit ↦ elim (Bool-cases (test x)) [
    | inl kept ↦ rw kept (ground (arith, e, hit, kept))
    | inr dropped ↦ rw dropped (
        any_of-above x.id i (select test xs) (select-Below test x.id xs b.1) (ground (arith, hit))
        ∙ ground (arith, e, hit, dropped))
  ]
  | inr miss ↦
      let rest = any_of-select test x.id i xs b.1 (rw miss at e) in
      elim (Bool-cases (test x)) [
        | inl kept ↦ rw kept (ground (arith, rest, miss))
        | inr dropped ↦ rw dropped rest
      ]
]

abbrev pub due : List WastePickup → WastePickup → Bool
due ps p = any_of (ids_of ps) p.id && is_cancellable p.status

bulk_cancel-delivered :
    (i : Uuid) (is : List Uuid) (env : Env) (w : World)
    → (env w.calls).reply ≡ delivered
    → bulk_cancel (i ∷ is) env w ≡ (
      ok tt,
      record w {
        db = (bulk_cancel_sql (i ∷ is) (env w.calls).now (seen env w)).1;
        calls = suc w.calls;
      },
    )
unfolding bulk_cancel query bulk_cancel_sql
bulk_cancel-delivered i is env w e = rw (e) refl

bulk_row :
    (ids : List Uuid) (now : Time) (i : Uuid) (d : Db) {p : WastePickup}
    → find i d.pickups ≡ some p
    → find i (bulk_cancel_sql ids now d).1.pickups
      ≡ some (set_if (λ x. any_of ids x.id && is_cancellable x.status) (withdrawn now) p)
unfolding bulk_cancel_sql
bulk_row ids now i d found =
    updated_to (λ x. any_of ids x.id && is_cancellable x.status) (withdrawn now) i d.pickups
      (λ x. refl) found

-- The second statement cancels, of the pickups that the first one found, those that are pending or
-- scheduled when it runs, and leaves every other pickup alone.
pub found_are_canceled :
    (env : Env) (ps : List WastePickup) (w : World) (i : Uuid) (p : WastePickup)
    → (env w.calls).reply ≡ delivered
    → ((d : Db) → (env w.calls).others d ≡ d)
    → find i w.db.pickups ≡ some p
    → find i (cancel_found ps env w).1.db.pickups
      ≡ some (set_if (due ps) (withdrawn (env w.calls).now) p)
unfolding cancel_found any_of
found_are_canceled env [] w i p replied quiet found = found
found_are_canceled env (x ∷ xs) w i p replied quiet found =
    let ps = x ∷ xs in
    let now : Time = (env w.calls).now in
    ap (λ (s : Result (Unit {0}) × World). find i s.1.db.pickups)
      (bind-ok (bulk_cancel (ids_of ps))
        (λ _.
          emit (organic_cancels_total (length ps))
          >> emit (pickups_canceled_total organic auto (length ps)))
        env w (bulk_cancel-delivered x.id (ids_of xs) env w replied))
    ∙ ap (λ (d : Db). find i (bulk_cancel_sql (ids_of ps) now d).1.pickups) (quiet w.db)
    ∙ bulk_row (ids_of ps) now i w.db found

find_expired-answer :
    (before : Time) (env : Env) (w : World)
    → (env w.calls).reply ≡ delivered
    → find_expired_organic before env w ≡ (
      ok (select (is_expired_organic before) (seen env w).pickups),
      record w { db = seen env w; calls = suc w.calls },
    )
unfolding find_expired_organic query
find_expired-answer before env w e = rw e refl

due-expired :
    (before : Time) (n i : ℕ) (xs : List WastePickup) (p : WastePickup)
    → Below n xs
    → find i xs ≡ some p
    → due (select (is_expired_organic before) xs) p ≡ is_expired_organic before p
unfolding is_expired_organic is_cancellable
due-expired before n i xs p b found =
    let listed = any_of-select (is_expired_organic before) n i xs b found in
    let own = find-key i p xs found in
    ground (
      arith,
      ap (λ (k : ℕ). any_of (ids_of (select (is_expired_organic before) xs)) k) own ∙ listed,
    )

-- A turn whose call is delivered, with no change by another session before it
pub record Undisturbed (env : Env) (n : ℕ) : Type 0 where
  pub delivers : (env n).reply ≡ delivered
  pub alone : (d : Db) → (env n).others d ≡ d

-- A cycle both statements of which are undisturbed
pub cycle_row :
    (c : OrganicCanceler) (env : Env) (w : World) (i : Uuid) (p : WastePickup)
    → Undisturbed env (suc w.calls)
    → Undisturbed env (suc (suc w.calls))
    → Inv w.db
    → find i w.db.pickups ≡ some p
    → find i (run c env w).1.db.pickups
      ≡ some (
          set_if
            (is_expired_organic (cutoff_time (env w.calls).now c.cutoff))
            (withdrawn (env (suc (suc w.calls))).now)
            p)
unfolding run
cycle_row c env w i p reading writing v found =
    let before : Time = cutoff_time (env w.calls).now c.cutoff in
    let start : World = record w {
      calls = suc w.calls;
      metrics = worker_cycles_total ∷ w.metrics;
    } in
    let d : Db = seen env start in
    let ps = select (is_expired_organic before) d.pickups in
    let same : d ≡ w.db = reading.alone w.db in
    let there : find i d.pickups ≡ some p = ap (λ (e : Db). find i e.pickups) same ∙ found in
    let keys = subst (λ (e : Db). Below e.next_id e.pickups) (sym same) v.pickup_keys in
    let next : World = record start {
      db = d;
      calls = suc start.calls;
      metrics = worker_expired_found_total (length ps) ∷ start.metrics;
    } in
    ap (λ (s : Result (Unit {0}) × World). find i s.1.db.pickups)
      (bind-ok (find_expired_organic before)
        (λ pickups. emit (worker_expired_found_total (length pickups)) >> cancel_found pickups) env
        start (find_expired-answer before env start reading.delivers))
    ∙ found_are_canceled env ps next i p writing.delivers writing.alone there
    ∙ ap (λ (b : Bool). some (if b then withdrawn (env (suc (suc w.calls))).now p else p))
        (due-expired before d.next_id i d.pickups p keys there)

-- BR-04: a cycle without other sessions, on a connection that works, cancels every pending organic
-- pickup that was created before the cutoff, and leaves every other pickup alone.
pub cycle_cancels_expired :
    (c : OrganicCanceler) (env : Env) (w : World) (i : Uuid) (p : WastePickup)
    → ((n : ℕ) → (env n).reply ≡ delivered)
    → ((n : ℕ) (d : Db) → (env n).others d ≡ d)
    → Inv w.db
    → find i w.db.pickups ≡ some p
    → find i (run c env w).1.db.pickups
      ≡ some (
          set_if
            (is_expired_organic (cutoff_time (env w.calls).now c.cutoff))
            (withdrawn (env (suc (suc w.calls))).now)
            p)
cycle_cancels_expired c env w i p works quiet v found =
    cycle_row c env w i p (record { delivers = works _; alone = quiet _ })
      (record { delivers = works _; alone = quiet _ }) v found
