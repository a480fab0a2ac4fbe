-- ===== src/System.antt =====
-- The program as its users and its clock drive it: the requests that reach internal/service, and
-- the ticks of the worker, one after another in one session. Other sessions act through the turns.
pub mod Integrity
pub mod History
pub mod Sessions
use community_waste_collecti.Base.{ℕ, String, List, [], ◌∷◌, Option}
use community_waste_collecti.Domain.{
  Uuid, CreateHouseholdRequest, CreatePickupRequest, SchedulePickupRequest, CreatePaymentRequest,
}
use community_waste_collecti.Database.{Db, Env, World}
use community_waste_collecti.Storage.{S3Client}
use community_waste_collecti.Worker.{OrganicCanceler}
use community_waste_collecti.Worker
use community_waste_collecti.Service.Households
use community_waste_collecti.Service.Pickups
use community_waste_collecti.Service.Payments

pub data Command (Decimal : Type 0) : Type 0 where
  create_household : CreateHouseholdRequest → Command Decimal
  get_household delete_household : Uuid → Command Decimal
  create_pickup : CreatePickupRequest → Command Decimal
  schedule_pickup : Uuid → SchedulePickupRequest → Command Decimal
  complete_pickup cancel_pickup : Uuid → Command Decimal
  create_payment : CreatePaymentRequest Decimal → Command Decimal
  confirm_payment : Uuid → Option (List ℕ) → ℕ → String → Command Decimal
  cancel_expired : Command Decimal

module _ {Decimal : Type 0} (s3 : S3Client) (canceler : OrganicCanceler) where
  -- The world after a command, whatever it answers.
  unfoldable pub perform : Command Decimal → Env → World → World
  perform (create_household req) env w = (Households.create req env w).1
  perform (get_household id) env w = (Households.get_by_id id env w).1
  perform (delete_household id) env w = (Households.remove id env w).1
  perform (create_pickup req) env w = (Pickups.create req env w).1
  perform (schedule_pickup id req) env w = (Pickups.schedule id req env w).1
  perform (complete_pickup id) env w = (Pickups.complete id env w).1
  perform (cancel_pickup id) env w = (Pickups.cancel id env w).1
  perform (create_payment req) env w = (Payments.create req env w).1
  perform (confirm_payment id file size content_type) env w =
      (Payments.confirm s3 id file size content_type env w).1
  perform cancel_expired env w = (Worker.run canceler env w).1

  unfoldable pub run : List (Command Decimal) → Env → World → World
  unfolding perform
  run [] env w = w
  run (c ∷ cs) env w = run cs env (perform c env w)

abbrev pub empty_db : Db
empty_db = record { households = []; pickups = []; payments = []; next_id = 1 }

abbrev pub start_with : Db → World
start_with d = record { db = d; bucket = []; calls = 0; metrics = [] }
