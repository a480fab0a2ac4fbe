-- ===== src/Tests/Worker.antt =====
-- The theorems on internal/worker/organic_canceler.go at concrete tables.
use community_waste_collecti.Base.{◌+◌, ◌≡◌, ◌≢◌, refl, leb, if◌then◌else◌, arith, [], ◌∷◌, some}
use community_waste_collecti.Table.{find}
use community_waste_collecti.Domain.{WastePickup, pickup_row, PickupStatus, canceled, scheduled}
use community_waste_collecti.Database.{Db, Env, delivered, refused}
use community_waste_collecti.Database.Integrity.{Rely, Legal-refl}
use community_waste_collecti.System.{start_with}
use community_waste_collecti.Worker.{run, cancel_found, start}
use community_waste_collecti.Worker.Expiry.{cycle_cancels_expired, found_are_canceled}
use community_waste_collecti.Worker.Liveness.{expired_is_not_left_pending}
use community_waste_collecti.Tests.Worlds.{canceler}
use community_waste_collecti.Tests.Rarities.{compost_pickup, compost_db, compost-Inv}

abbrev late : Env
late n = record { others = λ d. d; reply = delivered; now = 1000 + n; nonce = n; scan = [] }

cycle_cancels_expired_example :
    find 2 (run canceler late (start_with compost_db)).1.db.pickups
    ≡ some (record compost_pickup { status = canceled; updated_at = 1002 })
unfolding find community_waste_collecti.Repository.Pickups.is_expired_organic
    community_waste_collecti.Worker.cutoff_time
cycle_cancels_expired_example =
    cycle_cancels_expired canceler late (start_with compost_db) 2 compost_pickup (λ n. refl)
      (λ n d. refl) compost-Inv refl

-- A pickup that was scheduled after the worker had found it.
abbrev rescued : WastePickup
rescued = record compost_pickup { status = scheduled; pickup_date = some 2000 }

abbrev rescued_db : Db
rescued_db = record compost_db { pickups = rescued ∷ [] }

found_are_canceled_example :
    find 2 (cancel_found (compost_pickup ∷ []) late (start_with rescued_db)).1.db.pickups
    ≡ some (record rescued { status = canceled; updated_at = 1000 })
unfolding find community_waste_collecti.Repository.Pickups.any_of
    community_waste_collecti.Repository.Pickups.is_cancellable
found_are_canceled_example =
    found_are_canceled late (compost_pickup ∷ []) (start_with rescued_db) 2 rescued refl (λ d. refl)
      refl

-- The first SELECT of the worker is refused.
abbrev rough : Env
rough n = record {
  others = λ d. d;
  reply = if leb n 1 then refused else delivered;
  now = 1000 + n;
  nonce = n;
  scan = [];
}

rough-Rely : Rely rough
rough-Rely n d = Legal-refl d

abbrev withdrawn_compost : WastePickup
withdrawn_compost = record compost_pickup { status = canceled; updated_at = 1004 }

-- Three cycles, the second of which works
expired_is_not_left_pending_example : withdrawn_compost.status ≢ PickupStatus.pending
unfolding find run start cancel_found community_waste_collecti.Worker.cutoff_time
    community_waste_collecti.Repository.Pickups.find_expired_organic
    community_waste_collecti.Database.query community_waste_collecti.Table.select
    community_waste_collecti.Repository.Pickups.is_expired_organic
    community_waste_collecti.Repository.Pickups.bulk_cancel
    community_waste_collecti.Repository.Pickups.bulk_cancel_sql
    community_waste_collecti.Table.update community_waste_collecti.Repository.Pickups.any_of
expired_is_not_left_pending_example =
    expired_is_not_left_pending canceler rough rough-Rely (start_with compost_db) 2 compost_pickup 1
      1 compost-Inv refl refl (omega arith) (record { delivers = refl; alone = λ d. refl })
      (record { delivers = refl; alone = λ d. refl }) withdrawn_compost refl
