-- ===== src/Service/Pickups/Legality.antt =====
-- Legality of the methods of internal/service/pickup.go.
use community_waste_collecti.Base.{
  ℕ, suc, ltb, ◌≡◌, refl, inl, inr, false, some, arith, ◌==◌, nat_eq, Bool-cases,
}
use mathlib.Core.Path.{subst₂}
use community_waste_collecti.Table.{find, exists}
use community_waste_collecti.Table.Laws.{find-lt}
use community_waste_collecti.Domain.{
  Uuid, Time, WastePickup, pickup_row, PickupStatus, pickup_status_eq, scheduled,
  CreatePickupRequest, SchedulePickupRequest, Result, ok, Result-cases,
}
use community_waste_collecti.Database.{Db, Env, World, ◌>>=◌, query, select_from}
use community_waste_collecti.Database.Integrity.{
  Inv, PickupStep, Legal, Rely, Legal-refl, Legal-trans,
}
use community_waste_collecti.Database.Calls.{seen, pure_rule, query-Legal}
use community_waste_collecti.Repository.Pickups
use community_waste_collecti.Repository.Pickups.{
  has_pending_payment_for_household, cancel_if_cancellable, is_pending_of,
}
use community_waste_collecti.Repository.Pickups.Legality.{
  IsSafe, insert_pickup-Legal, schedule_sql-Legal, cancel_sql-Legal,
}
use community_waste_collecti.Service.Pickups.{
  create, new_pickup, schedule, lacks_safety_check, cancel,
}

-- The tables after an action, against those before it.
abbrev pub Keeps : {A : Type 0} → World → Result A × World → Type 0
Keeps w s = Legal w.db s.1.db

-- The world after the clock was read.
abbrev pub waited : World → World
waited w = record w { calls = suc w.calls }

module _ (env : Env) (rely : Rely env) where
  pub find_by_id-Legal : (id : Uuid) (w : World) → Keeps w (Pickups.find_by_id id env w)
  unfolding Pickups.find_by_id
  find_by_id-Legal id w = query-Legal env rely (select_from _) w (Legal-refl _)

  -- A pickup that `FindByID` returns is in the tables as they stand then.
  pub find_by_id-found :
      (id : Uuid) (w : World) (p : WastePickup)
      → (Pickups.find_by_id id env w).0 ≡ ok p
      → find id (Pickups.find_by_id id env w).1.db.pickups ≡ some p
  unfolding Pickups.find_by_id query
  find_by_id-found id w p e = ground arith

  schedule_repo-Legal :
      (id : Uuid) (date : Time) (w : World)
      → ((p : WastePickup) → find id (seen env w).pickups ≡ some p → IsSafe p)
      → Keeps w (Pickups.schedule id date env w)
  unfolding Pickups.schedule
  schedule_repo-Legal id date w safe =
      query-Legal env rely (Pickups.schedule_sql id date) w
        (schedule_sql-Legal id date (env w.calls).now (seen env w) safe)

  -- BR-03 once checked stays true: neither the type nor the flag of a pickup changes.
  still-IsSafe :
      (id : Uuid) (d : Db) (n : ℕ) (p : WastePickup)
      → Inv d
      → find id d.pickups ≡ some p
      → lacks_safety_check p ≡ false
      → (q : WastePickup) → find id ((env n).others d).pickups ≡ some q
      → IsSafe q
  unfolding lacks_safety_check
  still-IsSafe id d n p v found passed q later is_electronic =
      let (w, ev) = rely n d v in
      let step = ev.pickups id (find-lt id d.next_id p d.pickups v.pickup_keys found) in
      let b = subst₂ PickupStep found later step in
      ground (arith, b.same_type, b.same_safety, is_electronic, passed)

  create_repo-Legal :
      (req : CreatePickupRequest) (w : World) → Keeps w (Pickups.create (new_pickup req) env w)
  unfolding Pickups.create new_pickup
  create_repo-Legal req w =
      query-Legal env rely (Pickups.insert_pickup (new_pickup req)) w
        (insert_pickup-Legal (new_pickup req) (env w.calls).now (seen env w) refl)

  pub create-Legal : (req : CreatePickupRequest) (w : World) → Keeps w (create req env w)
  unfolding create has_pending_payment_for_household
  create-Legal req w =
      let checked =
        query-Legal env rely (select_from (λ d. exists (is_pending_of req.household_id) d.payments))
          w (Legal-refl _) in
      elim (Result-cases (has_pending_payment_for_household req.household_id env w).0) [
        | inr (x, e) ↦ rw (e, ◌>>=◌) checked
        | inl (busy, e) ↦
            rw (e, ◌>>=◌)
              (elim (Bool-cases busy) [
                | inl b ↦ rw b checked
                | inr b ↦
                    let w' = (has_pending_payment_for_household req.household_id env w).1 in
                    let both : Legal w.db (Pickups.create (new_pickup req) env w').1.db =
                      Legal-trans checked (create_repo-Legal req w') in
                    rw b (elim (Result-cases (Pickups.create (new_pickup req) env w').0) [
                      | inr (x, f) ↦ rw (f, ◌>>=◌) both
                      | inl (p, f) ↦ rw (f, ◌>>=◌) both
                    ])
              ])
      ]

  scheduled-Legal :
      (id : Uuid) (date : Time) (w : World) (p : WastePickup)
      → (Pickups.find_by_id id env w).0 ≡ ok p
      → lacks_safety_check p ≡ false
      → Keeps w (Pickups.schedule id date env (waited (Pickups.find_by_id id env w).1))
  scheduled-Legal id date w p e c v =
      let w' = (Pickups.find_by_id id env w).1 in
      let (v', ev) = find_by_id-Legal id w v in
      Legal-trans (find_by_id-Legal id w)
        (schedule_repo-Legal id date (waited w')
          (still-IsSafe id w'.db (suc w'.calls) p v' (find_by_id-found id w p e) c))
        v

  pub schedule-Legal :
      (id : Uuid) (req : SchedulePickupRequest) (w : World) → Keeps w (schedule id req env w)
  unfolding schedule
  schedule-Legal id req w = elim (Result-cases (Pickups.find_by_id id env w).0) [
    | inr (x, e) ↦ rw (e, ◌>>=◌) (find_by_id-Legal id w)
    | inl (p, e) ↦
        rw (e, ◌>>=◌)
          (elim (Bool-cases (p.status == PickupStatus.pending)) [
            | inr b ↦ rw b (find_by_id-Legal id w)
            | inl b ↦ rw b (elim (Bool-cases (lacks_safety_check p)) [
              | inl c ↦ rw c (find_by_id-Legal id w)
              | inr c ↦
                  rw c
                    (elim (Bool-cases
                      (ltb req.pickup_date (env (Pickups.find_by_id id env w).1.calls).now)) [
                        | inl g ↦ rw g (find_by_id-Legal id w)
                        | inr g ↦ rw g (
                            pure_rule w (Pickups.schedule id req.pickup_date)
                              (record p { status = scheduled; pickup_date = some req.pickup_date })
                              env (scheduled-Legal id req.pickup_date w p e c))
                      ])
            ])
          ])
  ]

  pub cancel_repo-Legal : (id : Uuid) (w : World) → Keeps w (cancel_if_cancellable id env w)
  unfolding cancel_if_cancellable
  cancel_repo-Legal id w =
      query-Legal env rely (Pickups.cancel_sql id) w
        (cancel_sql-Legal id (env w.calls).now (seen env w))

  pub cancel-Legal : (id : Uuid) (w : World) → Keeps w (cancel id env w)
  unfolding cancel
  cancel-Legal id w = elim (Result-cases (cancel_if_cancellable id env w).0) [
    | inr (x, e) ↦ rw (e, ◌>>=◌) (cancel_repo-Legal id w)
    | inl (canceled, e) ↦
        let w' = (cancel_if_cancellable id env w).1 in
        let both : Legal w.db (Pickups.find_by_id id env w').1.db =
          Legal-trans (cancel_repo-Legal id w) (find_by_id-Legal id w') in
        rw (e, ◌>>=◌)
          (elim (Result-cases (Pickups.find_by_id id env w').0) [
            | inr (x, f) ↦ rw (f, ◌>>=◌) both
            | inl (p, f) ↦
                rw (f, ◌>>=◌) (elim (Bool-cases canceled) [ inl b ↦ rw b both | inr b ↦ rw b both ])
          ])
  ]
