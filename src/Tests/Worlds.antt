-- ===== src/Tests/Worlds.antt =====
-- A session alone on a connection that works, and the tables that it builds up.
use community_waste_collecti.Base.{ℕ, pos, ◌+◌, ◌≡◌, refl, subst, List, [], ◌∷◌, some, none, true}
use community_waste_collecti.Table.{find, update, affected, select, exists, delete}
use community_waste_collecti.Domain.{
  Household, WastePickup, electronic, PickupStatus, scheduled, completed, Payment, PaymentStatus,
  paid, payment_amounts,
}
use community_waste_collecti.Database.{stored_time, query, transaction, Db, Env, World, delivered}
use community_waste_collecti.Database.Integrity.{Inv, Rely, Legal-refl}
use community_waste_collecti.Storage.{S3Client}
use community_waste_collecti.Worker.{OrganicCanceler}
use community_waste_collecti.System.{
  Command, create_household, create_pickup, schedule_pickup, complete_pickup, confirm_payment,
  perform, run, empty_db, start_with,
}
use community_waste_collecti.System.Integrity.{run_keeps_integrity, empty_db-Inv}

-- A clock that ticks with every call, and random values that never repeat.
abbrev pub quiet : Env
quiet n = record { others = λ d. d; reply = delivered; now = 100 + n; nonce = 7000 + n; scan = [] }

pub quiet-Rely : Rely quiet
quiet-Rely n d = Legal-refl d

abbrev pub s3 : S3Client
s3 = record { bucket = "proofs"; endpoint = "http://minio:9000" }

abbrev pub canceler : OrganicCanceler
canceler = record { cutoff = pos 60 }

abbrev pub Request : Type 0
Request = Command ℕ

abbrev pub booked : List Request
booked =
    create_household (record { owner_name = "Ani"; address = "Jl. Melati 1" })
    ∷ create_pickup (record { household_id = 1; type = electronic; safety_check = true })
    ∷ []

abbrev pub planned : List Request
planned =
    create_household (record { owner_name = "Ani"; address = "Jl. Melati 1" })
    ∷ create_pickup (record { household_id = 1; type = electronic; safety_check = true })
    ∷ schedule_pickup 2 (record { pickup_date = 200000 })
    ∷ []

abbrev pub collected : List Request
collected =
    create_household (record { owner_name = "Ani"; address = "Jl. Melati 1" })
    ∷ create_pickup (record { household_id = 1; type = electronic; safety_check = true })
    ∷ schedule_pickup 2 (record { pickup_date = 200000 })
    ∷ complete_pickup 2
    ∷ []

abbrev pub settled : List Request
settled =
    create_household (record { owner_name = "Ani"; address = "Jl. Melati 1" })
    ∷ create_pickup (record { household_id = 1; type = electronic; safety_check = true })
    ∷ schedule_pickup 2 (record { pickup_date = 200000 })
    ∷ complete_pickup 2
    ∷ confirm_payment 3 (some (1 ∷ 2 ∷ [])) 2 "image/png"
    ∷ []

-- The world after a list of commands from empty tables.
abbrev pub after : List Request → World
after cs = run s3 canceler cs quiet (start_with empty_db)

pub after-Inv : (cs : List Request) → Inv (after cs).db
after-Inv cs =
    (run_keeps_integrity s3 canceler quiet quiet-Rely cs (start_with empty_db) empty_db-Inv).0

abbrev pub home : Household
home = record {
  id = 1;
  owner_name = "Ani";
  address = "Jl. Melati 1";
  created_at = 100;
  updated_at = 100;
}

abbrev pub booked_pickup : WastePickup
booked_pickup = record {
  id = 2;
  household_id = 1;
  type = electronic;
  status = PickupStatus.pending;
  pickup_date = none;
  safety_check = true;
  created_at = 102;
  updated_at = 102;
}

abbrev pub planned_pickup : WastePickup
planned_pickup = record booked_pickup {
  status = scheduled;
  pickup_date = some 200000;
  updated_at = 105;
}

abbrev pub collected_pickup : WastePickup
collected_pickup = record planned_pickup { status = completed; updated_at = 107 }

abbrev pub open_payment : Payment
open_payment = record {
  id = 3;
  household_id = 1;
  waste_id = 2;
  amount = 10000000;
  payment_date = none;
  status = PaymentStatus.pending;
  proof_file_url = none;
  created_at = 107;
  updated_at = 107;
}

abbrev pub settled_payment : Payment
settled_payment = record open_payment {
  payment_date = some 0;
  status = paid;
  proof_file_url = some (record {
    endpoint = "http://minio:9000";
    bucket = "proofs";
    key = record { payment = 3; nonce = 7009 };
  });
  updated_at = 112;
}

abbrev pub booked_db : Db
booked_db = record {
  households = home ∷ [];
  pickups = booked_pickup ∷ [];
  payments = [];
  next_id = 3;
}

abbrev pub planned_db : Db
planned_db = record {
  households = home ∷ [];
  pickups = planned_pickup ∷ [];
  payments = [];
  next_id = 3;
}

abbrev pub collected_db : Db
collected_db = record {
  households = home ∷ [];
  pickups = collected_pickup ∷ [];
  payments = open_payment ∷ [];
  next_id = 4;
}

abbrev pub settled_db : Db
settled_db = record {
  households = home ∷ [];
  pickups = collected_pickup ∷ [];
  payments = settled_payment ∷ [];
  next_id = 4;
}

pub after-booked : (after booked).db ≡ booked_db
unfolding run perform community_waste_collecti.Service.Households.create
    community_waste_collecti.Service.Households.new_household
    community_waste_collecti.Repository.Households.create
    community_waste_collecti.Repository.Households.insert_household query
    community_waste_collecti.Service.Pickups.create
    community_waste_collecti.Service.Pickups.new_pickup
    community_waste_collecti.Repository.Pickups.has_pending_payment_for_household
    community_waste_collecti.Repository.Pickups.is_pending_of
    community_waste_collecti.Repository.Pickups.create
    community_waste_collecti.Repository.Pickups.insert_pickup exists find affected
after-booked = refl

pub after-planned : (after planned).db ≡ planned_db
unfolding run perform community_waste_collecti.Service.Households.create
    community_waste_collecti.Service.Households.new_household
    community_waste_collecti.Repository.Households.create
    community_waste_collecti.Repository.Households.insert_household query
    community_waste_collecti.Service.Pickups.create
    community_waste_collecti.Service.Pickups.new_pickup
    community_waste_collecti.Repository.Pickups.has_pending_payment_for_household
    community_waste_collecti.Repository.Pickups.is_pending_of
    community_waste_collecti.Repository.Pickups.create
    community_waste_collecti.Repository.Pickups.insert_pickup exists find affected
    community_waste_collecti.Service.Pickups.schedule
    community_waste_collecti.Service.Pickups.lacks_safety_check
    community_waste_collecti.Repository.Pickups.find_by_id
    community_waste_collecti.Repository.Pickups.schedule
    community_waste_collecti.Repository.Pickups.schedule_sql stored_time update
after-planned = refl

pub after-collected : (after collected).db ≡ collected_db
unfolding run perform community_waste_collecti.Service.Households.create
    community_waste_collecti.Service.Households.new_household
    community_waste_collecti.Repository.Households.create
    community_waste_collecti.Repository.Households.insert_household query
    community_waste_collecti.Service.Pickups.create
    community_waste_collecti.Service.Pickups.new_pickup
    community_waste_collecti.Repository.Pickups.has_pending_payment_for_household
    community_waste_collecti.Repository.Pickups.is_pending_of
    community_waste_collecti.Repository.Pickups.create
    community_waste_collecti.Repository.Pickups.insert_pickup exists find affected
    community_waste_collecti.Service.Pickups.schedule
    community_waste_collecti.Service.Pickups.lacks_safety_check
    community_waste_collecti.Repository.Pickups.find_by_id
    community_waste_collecti.Repository.Pickups.schedule
    community_waste_collecti.Repository.Pickups.schedule_sql stored_time update
    community_waste_collecti.Service.Pickups.complete
    community_waste_collecti.Service.Pickups.complete_tx
    community_waste_collecti.Service.Pickups.payment_for
    community_waste_collecti.Repository.Pickups.update_status_tx
    community_waste_collecti.Repository.Pickups.update_status_sql
    community_waste_collecti.Repository.Pickups.prior
    community_waste_collecti.Repository.Payments.create_with_tx
    community_waste_collecti.Repository.Payments.insert_payment
    community_waste_collecti.Repository.Payments.violates_unique
    community_waste_collecti.Repository.Payments.has_waste
    community_waste_collecti.Repository.Payments.references_exist transaction payment_amounts
after-collected = refl

pub after-settled : (after settled).db ≡ settled_db
unfolding run perform community_waste_collecti.Service.Households.create
    community_waste_collecti.Service.Households.new_household
    community_waste_collecti.Repository.Households.create
    community_waste_collecti.Repository.Households.insert_household query
    community_waste_collecti.Service.Pickups.create
    community_waste_collecti.Service.Pickups.new_pickup
    community_waste_collecti.Repository.Pickups.has_pending_payment_for_household
    community_waste_collecti.Repository.Pickups.is_pending_of
    community_waste_collecti.Repository.Pickups.create
    community_waste_collecti.Repository.Pickups.insert_pickup exists find affected
    community_waste_collecti.Service.Pickups.schedule
    community_waste_collecti.Service.Pickups.lacks_safety_check
    community_waste_collecti.Repository.Pickups.find_by_id
    community_waste_collecti.Repository.Pickups.schedule
    community_waste_collecti.Repository.Pickups.schedule_sql stored_time update
    community_waste_collecti.Service.Pickups.complete
    community_waste_collecti.Service.Pickups.complete_tx
    community_waste_collecti.Service.Pickups.payment_for
    community_waste_collecti.Repository.Pickups.update_status_tx
    community_waste_collecti.Repository.Pickups.update_status_sql
    community_waste_collecti.Repository.Pickups.prior
    community_waste_collecti.Repository.Payments.create_with_tx
    community_waste_collecti.Repository.Payments.insert_payment
    community_waste_collecti.Repository.Payments.violates_unique
    community_waste_collecti.Repository.Payments.has_waste
    community_waste_collecti.Repository.Payments.references_exist transaction payment_amounts
    community_waste_collecti.Service.Payments.confirm
    community_waste_collecti.Service.Payments.settle community_waste_collecti.Service.Payments.mark
    community_waste_collecti.Repository.Payments.find_by_id
    community_waste_collecti.Repository.Payments.confirm
    community_waste_collecti.Repository.Payments.confirm_sql community_waste_collecti.Storage.upload
    community_waste_collecti.Storage.put_object community_waste_collecti.Storage.remove
    community_waste_collecti.Storage.delete_object select delete
after-settled = refl

pub booked-Inv : Inv booked_db
booked-Inv = subst Inv after-booked (after-Inv booked)

pub planned-Inv : Inv planned_db
planned-Inv = subst Inv after-planned (after-Inv planned)

pub collected-Inv : Inv collected_db
collected-Inv = subst Inv after-collected (after-Inv collected)

pub settled-Inv : Inv settled_db
settled-Inv = subst Inv after-settled (after-Inv settled)
