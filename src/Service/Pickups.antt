-- ===== src/Service/Pickups.antt =====
-- internal/service/pickup.go
pub mod Legality
pub mod Completion
pub mod Outcomes
pub mod Creation
pub mod Cancellation
pub mod Charging
pub mod Settlement
pub mod Advance
use community_waste_collecti.Base.{ℕ, List, Bool, not, ◌&&◌, none, some, ◌==◌, nat_eq, ltb}
use community_waste_collecti.Domain.{
  PickupFilter, Uuid, electronic, waste_eq, PickupStatus, scheduled, completed, pickup_status_eq,
  WastePickup, CreatePickupRequest, SchedulePickupRequest, Payment, PaymentStatus, payment_amounts,
  business_rule, conflict, validation,
}
use community_waste_collecti.Database.{
  Action, Body, pure, ◌>>=◌, ◌>>◌, raise_if, emit, clock, transaction, then_tx,
  pickups_created_total, pickups_completed_total, pickups_canceled_total, payments_created_total,
  manual,
}
use community_waste_collecti.Repository.Lists.{list_pickups}
use community_waste_collecti.Repository.Pickups
use community_waste_collecti.Repository.Pickups.{
  has_pending_payment_for_household, cancel_if_cancellable,
}
use community_waste_collecti.Repository.Payments

-- The struct that `Create` hands to the repository; the other fields have Go's zero values.
unfoldable pub new_pickup : CreatePickupRequest → WastePickup
new_pickup req = record {
  id = 0;
  household_id = req.household_id;
  type = req.type;
  status = PickupStatus.pending;
  pickup_date = none;
  safety_check = req.safety_check;
  created_at = 0;
  updated_at = 0;
}

unfoldable pub create : CreatePickupRequest → Action WastePickup
unfolding new_pickup
create req = do
  has_pending ← has_pending_payment_for_household req.household_id
  raise_if has_pending conflict
  pickup ← Pickups.create (new_pickup req)
  emit (pickups_created_total req.type)
  pure pickup

-- BR-03
unfoldable pub lacks_safety_check : WastePickup → Bool
lacks_safety_check p = p.type == electronic && not p.safety_check

unfoldable pub schedule : Uuid → SchedulePickupRequest → Action WastePickup
unfolding lacks_safety_check
schedule id req = do
  pickup ← Pickups.find_by_id id
  raise_if (not (pickup.status == PickupStatus.pending)) conflict
  raise_if (lacks_safety_check pickup) business_rule
  now ← clock
  raise_if (ltb req.pickup_date now) validation
  Pickups.schedule id req.pickup_date
  pure (record pickup { status = scheduled; pickup_date = some req.pickup_date })

-- The payment that a pickup calls for.
unfoldable pub payment_for : WastePickup → Payment
payment_for p = record {
  id = 0;
  household_id = p.household_id;
  waste_id = p.id;
  amount = payment_amounts p.type;
  payment_date = none;
  status = PaymentStatus.pending;
  proof_file_url = none;
  created_at = 0;
  updated_at = 0;
}

-- The statements between BeginTxx and Commit.
unfoldable pub complete_tx : Uuid → WastePickup → Body Payment
unfolding payment_for
complete_tx id pickup =
    then_tx (Pickups.update_status_tx id completed)
      λ _. Payments.create_with_tx (payment_for pickup)

unfoldable pub complete : Uuid → Action WastePickup
unfolding complete_tx
complete id = do
  pickup ← Pickups.find_by_id id
  raise_if (not (pickup.status == scheduled)) conflict
  transaction (complete_tx id pickup)
  emit (pickups_completed_total pickup.type)
  emit payments_created_total
  pure (record pickup { status = completed })

-- The two messages of a refused cancellation wrap the same sentinel.
unfoldable pub cancel : Uuid → Action WastePickup
cancel id = do
  done ← cancel_if_cancellable id
  pickup ← Pickups.find_by_id id
  raise_if (not done) conflict
  emit (pickups_canceled_total pickup.type manual 1)
  pure pickup

unfoldable pub list : PickupFilter → Action (List WastePickup × ℕ)
list filter = list_pickups filter
