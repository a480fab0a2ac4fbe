-- ===== src/Tests/Rarities.antt =====
-- Tables that a session alone comes to by less common ways.
use community_waste_collecti.Base.{◌≡◌, refl, subst, List, [], ◌∷◌, true, false}
use community_waste_collecti.Table.{find, update, affected, exists}
use community_waste_collecti.Domain.{WastePickup, electronic, organic, Payment, payment_amounts}
use community_waste_collecti.Database.{stored_time, query, Db}
use community_waste_collecti.Database.Integrity.{Inv}
use community_waste_collecti.System.{
  create_household, create_pickup, schedule_pickup, create_payment, perform, run,
}
use community_waste_collecti.Tests.Worlds.{
  Request, after, after-Inv, home, booked_pickup, planned_pickup, open_payment,
}

-- A pickup that is paid for before it is collected.
abbrev pub prepaid : List Request
prepaid =
    create_household (record { owner_name = "Ani"; address = "Jl. Melati 1" })
    ∷ create_pickup (record { household_id = 1; type = electronic; safety_check = true })
    ∷ schedule_pickup 2 (record { pickup_date = 200000 })
    ∷ create_payment (record { household_id = 1; waste_id = 2; amount = 100 })
    ∷ []

abbrev pub advance_payment : Payment
advance_payment = record open_payment { created_at = 107; updated_at = 107 }

abbrev pub prepaid_db : Db
prepaid_db = record {
  households = home ∷ [];
  pickups = planned_pickup ∷ [];
  payments = advance_payment ∷ [];
  next_id = 4;
}

pub after-prepaid : (after prepaid).db ≡ prepaid_db
unfolding run perform community_waste_collecti.Service.Households.create
    community_waste_collecti.Service.Households.new_household
    community_waste_collecti.Repository.Households.create
    community_waste_collecti.Repository.Households.insert_household query
    community_waste_collecti.Service.Pickups.create
    community_waste_collecti.Service.Pickups.new_pickup
    community_waste_collecti.Repository.Pickups.has_pending_payment_for_household
    community_waste_collecti.Repository.Pickups.is_pending_of
    community_waste_collecti.Repository.Pickups.create
    community_waste_collecti.Repository.Pickups.insert_pickup exists find affected
    community_waste_collecti.Service.Pickups.schedule
    community_waste_collecti.Service.Pickups.lacks_safety_check
    community_waste_collecti.Repository.Pickups.find_by_id
    community_waste_collecti.Repository.Pickups.schedule
    community_waste_collecti.Repository.Pickups.schedule_sql stored_time update
    community_waste_collecti.Service.Payments.create
    community_waste_collecti.Service.Payments.new_payment
    community_waste_collecti.Repository.Payments.create
    community_waste_collecti.Repository.Payments.insert_payment
    community_waste_collecti.Repository.Payments.violates_unique
    community_waste_collecti.Repository.Payments.has_waste
    community_waste_collecti.Repository.Payments.references_exist payment_amounts
after-prepaid = refl

-- A pickup of organic waste.
abbrev pub compost : List Request
compost =
    create_household (record { owner_name = "Ani"; address = "Jl. Melati 1" })
    ∷ create_pickup (record { household_id = 1; type = organic; safety_check = false })
    ∷ []

abbrev pub compost_pickup : WastePickup
compost_pickup = record booked_pickup { type = organic; safety_check = false }

abbrev pub compost_db : Db
compost_db = record {
  households = home ∷ [];
  pickups = compost_pickup ∷ [];
  payments = [];
  next_id = 3;
}

pub after-compost : (after compost).db ≡ compost_db
unfolding run perform community_waste_collecti.Service.Households.create
    community_waste_collecti.Service.Households.new_household
    community_waste_collecti.Repository.Households.create
    community_waste_collecti.Repository.Households.insert_household query
    community_waste_collecti.Service.Pickups.create
    community_waste_collecti.Service.Pickups.new_pickup
    community_waste_collecti.Repository.Pickups.has_pending_payment_for_household
    community_waste_collecti.Repository.Pickups.is_pending_of
    community_waste_collecti.Repository.Pickups.create
    community_waste_collecti.Repository.Pickups.insert_pickup exists find affected
after-compost = refl

pub compost-Inv : Inv compost_db
compost-Inv = subst Inv after-compost (after-Inv compost)
