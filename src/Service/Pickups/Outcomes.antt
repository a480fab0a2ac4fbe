-- ===== src/Service/Pickups/Outcomes.antt =====
-- Schedule of internal/service/pickup.go: what it has done when it returns.
use community_waste_collecti.Base.{
  ◌≤◌, ℕ, suc, ltb, ◌≡◌, refl, sym, ◌∙◌, ap, inl, inr, false, some, arith, ◌==◌, nat_eq, Bool-cases,
}
use community_waste_collecti.Table.{find}
use community_waste_collecti.Table.Laws.{affected-some}
use community_waste_collecti.Table.Found.{updated_hit}
use community_waste_collecti.Domain.{
  Uuid, Time, payment_row, WastePickup, pickup_row, PickupStatus, pickup_status_eq, scheduled,
  SchedulePickupRequest, ok, Result-cases,
}
use community_waste_collecti.Database.{
  stored_time, Db, Env, World, ◌>>=◌, ◌>>◌, query, done, failed_with, Outcome,
}
use community_waste_collecti.Database.Integrity.{Inv, Rely}
use community_waste_collecti.Database.Calls.{seen, query-done}
use community_waste_collecti.Repository.Pickups
use community_waste_collecti.Repository.Pickups.{schedule_sql, some_row}
use community_waste_collecti.Service.Pickups.{schedule, lacks_safety_check}
use community_waste_collecti.Service.Pickups.Legality.{find_by_id-Legal, waited}

pub some_row-ok :
    (o : Outcome ℕ) (u : Unit {0}) → some_row o ≡ ok u → (n : ℕ) × (o ≡ done n) × ((n == 0) ≡ false)
some_row-ok (done n) u e = (n, refl, ground arith)
some_row-ok (failed_with x) u e = absurd (cc e)

-- The row of a scheduling that reached the tables.
schedule_row :
    (id : Uuid) (date : Time) (env : Env) (w : World)
    → Inv (seen env w)
    → (Pickups.schedule id date env w).0 ≡ ok tt
    → (q : WastePickup) × (find id (Pickups.schedule id date env w).1.db.pickups ≡ some q)
      × (q.status ≡ scheduled)
      × (q.pickup_date ≡ some (stored_time date))
unfolding Pickups.schedule schedule_sql
schedule_row id date env w v e =
    let (n, answered, positive) = some_row-ok (query (schedule_sql id date) env w).0 tt e in
    let (counted, wrote) = query-done (schedule_sql id date) env w n answered in
    let (p, found, was) =
      affected-some (λ x. x.status == PickupStatus.pending) id _ (seen env w).pickups v.pickup_keys
        (ground (arith, counted, positive)) in
    (
      _,
      ap (λ (d : Db). find id d.pickups) wrote
          ∙ updated_hit (λ x. x.status == PickupStatus.pending)
              (λ x. record x {
                status = scheduled;
                pickup_date = some (stored_time date);
                updated_at = (env w.calls).now;
              })
              id (seen env w).pickups (λ x. refl) found was,
      refl,
      refl,
    )

-- `FindByID` is one call, so `Schedule` reads the clock at the next.
not_before :
    (id : Uuid) (date : Time) (env : Env) (w : World)
    → ltb date (env (Pickups.find_by_id id env w).1.calls).now ≡ false
    → (env (suc w.calls)).now ≤ date
unfolding Pickups.find_by_id query
not_before id date env w e = ground arith

-- Scheduling leaves BR-03 as it was.
same_check :
    (o : WastePickup) (date : Time)
    → lacks_safety_check (record o { status = scheduled; pickup_date = some date })
      ≡ lacks_safety_check o
unfolding lacks_safety_check
same_check o date = refl

module _ (env : Env) (rely : Rely env) where
  pub seen-Inv : (w : World) → Inv w.db → Inv (seen env w)
  seen-Inv w v = (rely w.calls w.db v).0

  pub found-Inv : (id : Uuid) (w : World) → Inv w.db → Inv (Pickups.find_by_id id env w).1.db
  found-Inv id w v = (find_by_id-Legal env rely id w v).0

  -- BR-02: where `Schedule` returns a pickup without an error, the row is scheduled for the
  -- requested date, in whole microseconds; what is returned is scheduled for the very date; the date is not before the clock; and the pickup that
  -- was read did not lack its safety check (BR-03).
  pub schedule_ok :
      (id : Uuid) (req : SchedulePickupRequest) (w : World) (p : WastePickup)
      → Inv w.db
      → (schedule id req env w).0 ≡ ok p
      → ((q : WastePickup) × (find id (schedule id req env w).1.db.pickups ≡ some q)
          × (q.status ≡ scheduled)
          × (q.pickup_date ≡ some (stored_time req.pickup_date)))
        × (p.status ≡ scheduled)
        × (p.pickup_date ≡ some req.pickup_date)
        × (lacks_safety_check p ≡ false)
        × ((env (suc w.calls)).now ≤ req.pickup_date)
  unfolding schedule
  schedule_ok id req w p v = elim (Result-cases (Pickups.find_by_id id env w).0) [
    | inr (x, e) ↦ rw (e, ◌>>=◌) (λ k. absurd (cc k))
    | inl (o, e) ↦
        rw (e, ◌>>=◌)
          (elim (Bool-cases (o.status == PickupStatus.pending)) [
            | inr b ↦ rw b (λ k. absurd (cc k))
            | inl b ↦ rw b (elim (Bool-cases (lacks_safety_check o)) [
              | inl c ↦ rw c (λ k. absurd (cc k))
              | inr c ↦
                  rw c
                    (elim (Bool-cases
                      (ltb req.pickup_date (env (Pickups.find_by_id id env w).1.calls).now)) [
                        | inl g ↦ rw g (λ k. absurd (cc k))
                        | inr g ↦
                            rw g
                              (elim (Result-cases
                                (Pickups.schedule id req.pickup_date env
                                  (waited (Pickups.find_by_id id env w).1)).0) [
                                    | inr (x, f) ↦ rw (f, ◌>>◌, ◌>>=◌) (λ k. absurd (cc k))
                                    | inl (u, f) ↦
                                        rw (f, ◌>>◌, ◌>>=◌)
                                          (λ k.
                                            let it : record o {
                                              status = scheduled;
                                              pickup_date = some req.pickup_date;
                                            }
                                                ≡ p =
                                              cc k in
                                            (
                                              schedule_row id req.pickup_date env
                                                  (waited (Pickups.find_by_id id env w).1)
                                                  (seen-Inv (waited (Pickups.find_by_id id env w).1)
                                                    (found-Inv id w v))
                                                  f,
                                              sym (ap (λ x. x.status) it),
                                              sym (ap (λ x. x.pickup_date) it),
                                              sym (ap lacks_safety_check it)
                                                  ∙ same_check o req.pickup_date
                                                  ∙ c,
                                              not_before id req.pickup_date env w g,
                                            ))
                                  ])
                      ])
            ])
          ])
  ]
