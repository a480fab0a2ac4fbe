-- ===== src/Tests/Pickups.antt =====
-- The theorems on internal/service/pickup.go at concrete tables.
use community_waste_collecti.Base.{
  ◌==◌, nat_eq, if◌then◌else◌, ◌≤◌, ◌≡◌, refl, ◌⊎◌, some, none, true, false,
}
use community_waste_collecti.Table.{find, update, affected, exists}
use community_waste_collecti.Domain.{
  Uuid, WastePickup, pickup_row, electronic, PickupStatus, scheduled, completed, canceled, Payment,
  payment_row, PaymentStatus, payment_amounts, CreatePickupRequest, SchedulePickupRequest, err,
  conflict, Error,
}
use community_waste_collecti.Database.{stored_time, Env, World, delivered, lost, query, transaction}
use community_waste_collecti.Database.Integrity.{Evolves-refl, Legal-refl}
use community_waste_collecti.Database.Calls.{seen}
use community_waste_collecti.System.{start_with}
use community_waste_collecti.Service.Pickups.{
  create, schedule, complete, cancel, lacks_safety_check,
}
use community_waste_collecti.Repository.Pickups
use community_waste_collecti.Service.Pickups.Completion.{complete-Legal}
use community_waste_collecti.Service.Pickups.Outcomes.{schedule_ok}
use community_waste_collecti.Service.Pickups.Charging.{settled_tables}
use community_waste_collecti.Service.Pickups.Settlement.{
  complete_ok, complete_once, complete_atomic,
}
use community_waste_collecti.Service.Pickups.Cancellation.{cancel_ok}
use community_waste_collecti.Service.Pickups.Creation.{pending_payment_blocks, pickup_create_ok}
use community_waste_collecti.Service.Pickups.Advance.{charged_pickup_never_completes}
use community_waste_collecti.Tests.Worlds.{
  quiet, quiet-Rely, booked_pickup, planned_pickup, open_payment, booked_db, planned_db,
  collected_db, settled_db, booked-Inv, planned-Inv, settled-Inv,
}
use community_waste_collecti.Tests.Rarities.{advance_payment, prepaid_db}

abbrev tomorrow : SchedulePickupRequest
tomorrow = record { pickup_date = 86400000000501 }

schedule_ok_example :
    ((q : WastePickup) × (find 2 (schedule 2 tomorrow quiet (start_with booked_db)).1.db.pickups
        ≡ some q)
      × (q.status ≡ scheduled)
      × (q.pickup_date ≡ some 86400000001000))
    × (scheduled ≡ scheduled)
    × (some tomorrow.pickup_date ≡ some tomorrow.pickup_date)
    × (lacks_safety_check booked_pickup ≡ false)
    × (101 ≤ 86400000000501)
unfolding community_waste_collecti.Service.Pickups.schedule
    community_waste_collecti.Service.Pickups.lacks_safety_check
    community_waste_collecti.Repository.Pickups.find_by_id
    community_waste_collecti.Repository.Pickups.schedule
    community_waste_collecti.Repository.Pickups.schedule_sql stored_time query find update affected
schedule_ok_example =
    schedule_ok quiet quiet-Rely 2 tomorrow (start_with booked_db)
      (record booked_pickup { status = scheduled; pickup_date = some 86400000000501 }) booked-Inv
      refl

complete_ok_example :
    ((q : WastePickup) × (find 2 (complete 2 quiet (start_with planned_db)).1.db.pickups ≡ some q)
      × (q.status ≡ completed))
    × ((j : Uuid) × (r : Payment) × (find j (complete 2 quiet (start_with planned_db)).1.db.payments
          ≡ some r)
        × (find j planned_db.payments ≡ none)
        × (r.waste_id ≡ 2)
        × (r.household_id ≡ 1)
        × (r.amount ≡ payment_amounts electronic)
        × (r.status ≡ PaymentStatus.pending))
unfolding community_waste_collecti.Service.Pickups.complete
    community_waste_collecti.Service.Pickups.complete_tx
    community_waste_collecti.Service.Pickups.payment_for
    community_waste_collecti.Repository.Pickups.find_by_id
    community_waste_collecti.Repository.Pickups.update_status_tx
    community_waste_collecti.Repository.Pickups.update_status_sql
    community_waste_collecti.Repository.Pickups.prior
    community_waste_collecti.Repository.Payments.create_with_tx
    community_waste_collecti.Repository.Payments.insert_payment
    community_waste_collecti.Repository.Payments.violates_unique
    community_waste_collecti.Repository.Payments.has_waste
    community_waste_collecti.Repository.Pickups.is_pending_of
    community_waste_collecti.Repository.Payments.references_exist transaction query find update
    affected exists payment_amounts
complete_ok_example =
    complete_ok quiet quiet-Rely 2 (start_with planned_db)
      (record planned_pickup { status = completed }) planned-Inv refl

-- The reply to the transaction is lost.
abbrev lossy : Env
lossy n = record (quiet n) { reply = if n == 1 then lost else delivered }

abbrev first_completion : World
first_completion = (complete 2 lossy (start_with planned_db)).1

complete_once_example :
    ((x : Error) × ((complete 2 quiet first_completion).0 ≡ err x))
    × ((complete 2 quiet first_completion).1.db ≡ seen quiet first_completion)
    × ((i j : Uuid) (p q : Payment)
        → find i (complete 2 quiet first_completion).1.db.payments ≡ some p
        → find j (complete 2 quiet first_completion).1.db.payments ≡ some q
        → p.waste_id ≡ 2
        → q.waste_id ≡ 2
        → i ≡ j)
unfolding community_waste_collecti.Service.Pickups.complete
    community_waste_collecti.Service.Pickups.complete_tx
    community_waste_collecti.Service.Pickups.payment_for
    community_waste_collecti.Repository.Pickups.find_by_id
    community_waste_collecti.Repository.Pickups.update_status_tx
    community_waste_collecti.Repository.Pickups.update_status_sql
    community_waste_collecti.Repository.Pickups.prior
    community_waste_collecti.Repository.Payments.create_with_tx
    community_waste_collecti.Repository.Payments.insert_payment
    community_waste_collecti.Repository.Payments.violates_unique
    community_waste_collecti.Repository.Payments.has_waste
    community_waste_collecti.Repository.Pickups.is_pending_of
    community_waste_collecti.Repository.Payments.references_exist transaction query find update
    affected exists payment_amounts
complete_once_example =
    complete_once lossy quiet 2 (start_with planned_db) first_completion
      (record planned_pickup { status = completed; updated_at = 101 }) (λ n d. Legal-refl d)
      quiet-Rely planned-Inv refl refl
      (complete-Legal lossy (λ n d. Legal-refl d) 2 (start_with planned_db) planned-Inv).0
      (Evolves-refl first_completion.db)

complete_atomic_example :
    ((complete 2 quiet (start_with planned_db)).1.db ≡ seen quiet (start_with planned_db))
    ⊎ ((o : WastePickup) × (find 2 (seen quiet (start_with planned_db)).pickups ≡ some o)
        × (o.status ≡ scheduled)
        × (((complete 2 quiet (start_with planned_db)).1.db
              ≡ seen quiet (Pickups.find_by_id 2 quiet (start_with planned_db)).1)
            ⊎ ((complete 2 quiet (start_with planned_db)).1.db
                ≡ settled_tables 2 o 101
                    (seen quiet (Pickups.find_by_id 2 quiet (start_with planned_db)).1))))
complete_atomic_example = complete_atomic quiet 2 (start_with planned_db)

abbrev more_waste : CreatePickupRequest
more_waste = record { household_id = 1; type = electronic; safety_check = true }

pending_payment_blocks_example :
    create more_waste quiet (start_with collected_db)
    ≡ (err conflict, record (start_with collected_db) { calls = 1 })
unfolding find
pending_payment_blocks_example =
    pending_payment_blocks quiet more_waste (start_with collected_db) 3 open_payment refl refl refl
      refl

pickup_create_ok_example :
    (find 4 (create more_waste quiet (start_with settled_db)).1.db.pickups
      ≡ some (record booked_pickup { id = 4; created_at = 101; updated_at = 101 }))
    × (find 4 settled_db.pickups ≡ none)
    × (PickupStatus.pending ≡ PickupStatus.pending)
    × (booked_pickup.pickup_date ≡ none)
    × (booked_pickup.household_id ≡ more_waste.household_id)
    × (electronic ≡ electronic)
    × (true ≡ true)
unfolding community_waste_collecti.Service.Pickups.create
    community_waste_collecti.Service.Pickups.new_pickup
    community_waste_collecti.Repository.Pickups.has_pending_payment_for_household
    community_waste_collecti.Repository.Pickups.is_pending_of
    community_waste_collecti.Repository.Pickups.create
    community_waste_collecti.Repository.Pickups.insert_pickup query exists find affected
pickup_create_ok_example =
    pickup_create_ok quiet quiet-Rely more_waste (start_with settled_db)
      (record booked_pickup { id = 4; created_at = 101; updated_at = 101 }) settled-Inv refl

canceled_as_returned :
    (find 2 (cancel 2 quiet (start_with planned_db)).1.db.pickups
      ≡ some (record planned_pickup { status = canceled; updated_at = 100 }))
    × (canceled ≡ canceled)
unfolding community_waste_collecti.Service.Pickups.cancel
    community_waste_collecti.Repository.Pickups.cancel_if_cancellable
    community_waste_collecti.Repository.Pickups.cancel_sql
    community_waste_collecti.Repository.Pickups.is_cancellable
    community_waste_collecti.Repository.Pickups.find_by_id query find update affected
canceled_as_returned =
    cancel_ok quiet quiet-Rely 2 (start_with planned_db)
      (record planned_pickup { status = canceled; updated_at = 100 }) planned-Inv refl

charged_pickup_never_completes_example :
    ((x : Error) × ((complete 2 quiet (start_with prepaid_db)).0 ≡ err x))
    × (((complete 2 quiet (start_with prepaid_db)).1.db ≡ seen quiet (start_with prepaid_db))
        ⊎ ((complete 2 quiet (start_with prepaid_db)).1.db
            ≡ seen quiet (Pickups.find_by_id 2 quiet (start_with prepaid_db)).1))
unfolding find community_waste_collecti.Repository.Pickups.find_by_id query
charged_pickup_never_completes_example =
    charged_pickup_never_completes quiet 2 (start_with prepaid_db) 3 advance_payment refl refl
