-- ===== src/System/Integrity.antt =====
-- The integrity of the tables and the history of their rows, over runs of commands.
use community_waste_collecti.Base.{List, [], ◌∷◌, arith}
use community_waste_collecti.Table.{find}
use community_waste_collecti.Database.{Env, World}
use community_waste_collecti.Database.Integrity.{Inv, Evolves, Legal, Rely, Legal-refl, Legal-trans}
use community_waste_collecti.Storage.{S3Client}
use community_waste_collecti.Worker.{OrganicCanceler}
use community_waste_collecti.Worker.Legality as Worker
use community_waste_collecti.Service.Households.Legality as Households
use community_waste_collecti.Service.Pickups.Legality as Pickups
use community_waste_collecti.Service.Pickups.Completion as Completion
use community_waste_collecti.Service.Payments.Legality as Payments
use community_waste_collecti.System.{
  Command, create_household, get_household, delete_household, create_pickup, schedule_pickup,
  complete_pickup, cancel_pickup, create_payment, confirm_payment, cancel_expired, perform, run,
  empty_db,
}

module _ {Decimal : Type 0} (s3 : S3Client) (canceler : OrganicCanceler) (env : Env)
    (rely : Rely env) where
  pub perform-Legal :
      (c : Command Decimal) (w : World) → Legal w.db (perform s3 canceler c env w).db
  unfolding perform
  perform-Legal (create_household req) w = Households.create-Legal env rely req w
  perform-Legal (get_household id) w = Households.get_by_id-Legal env rely id w
  perform-Legal (delete_household id) w = Households.remove-Legal env rely id w
  perform-Legal (create_pickup req) w = Pickups.create-Legal env rely req w
  perform-Legal (schedule_pickup id req) w = Pickups.schedule-Legal env rely id req w
  perform-Legal (complete_pickup id) w = Completion.complete-Legal env rely id w
  perform-Legal (cancel_pickup id) w = Pickups.cancel-Legal env rely id w
  perform-Legal (create_payment req) w = Payments.create-Legal env rely req w
  perform-Legal (confirm_payment id file size content_type) w =
      Payments.confirm-Legal env rely s3 id file size content_type w
  perform-Legal cancel_expired w = Worker.run-Legal env rely canceler w

  pub run-Legal :
      (cs : List (Command Decimal)) (w : World) → Legal w.db (run s3 canceler cs env w).db
  unfolding run
  run-Legal [] w = Legal-refl w.db
  run-Legal (c ∷ cs) w =
      Legal-trans (perform-Legal c w) (run-Legal cs (perform s3 canceler c env w))

  -- Any sequence of commands, whatever legal changes other sessions make before each of their
  -- statements and whichever statements fail or lose their replies, keeps the integrity of the
  -- tables, where it holds at the start, and is a legal history of every row.
  pub run_keeps_integrity :
      (cs : List (Command Decimal)) (w : World)
      → Inv w.db
      → Inv (run s3 canceler cs env w).db × Evolves w.db (run s3 canceler cs env w).db
  run_keeps_integrity cs w v = run-Legal cs w v

pub empty_db-Inv : Inv empty_db
unfolding find
empty_db-Inv = record {
  household_keys = tt;
  pickup_keys = tt;
  payment_keys = tt;
  pickups_ok = λ i p e. absurd (ground arith);
  payments_ok = λ i q e. absurd (ground arith);
  one_payment = λ i j q r e f same. absurd (ground arith);
  one_pending = λ i j q r e f same a b. absurd (ground arith);
}
