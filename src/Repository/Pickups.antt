-- ===== src/Repository/Pickups.antt =====
-- internal/repository/pickup.go
pub mod Legality
use community_waste_collecti.Base.{
  ℕ, suc, Bool, true, false, ◌&&◌, ◌||◌, List, [], ◌∷◌, Option, none, some, ◌==◌, nat_eq, ltb,
  if◌then◌else◌, is_some,
}
use community_waste_collecti.Table.{find, update, affected, select, exists}
use community_waste_collecti.Domain.{
  Uuid, Time, organic, waste_eq, PickupStatus, scheduled, completed, canceled, pickup_status_eq,
  WastePickup, pickup_row, household_row, Payment, PaymentStatus, payment_status_eq, Error,
  not_found, conflict, internal_failure, Result, ok, err,
}
use community_waste_collecti.Database.{
  stored_time, Db, Outcome, done, failed_with, DbError, foreign_key_violation, Statement, Action,
  Body, exec, exec_tx, or_err, internal, select_from, pure,
}

unfoldable pub map_pickup_create_err : DbError → Error
map_pickup_create_err foreign_key_violation = not_found
map_pickup_create_err _ = internal_failure

-- INSERT INTO waste_pickups (household_id, type, status, safety_check) … RETURNING *
unfoldable pub insert_pickup : WastePickup → Statement WastePickup
insert_pickup p now d =
    let row : WastePickup = record p {
      id = d.next_id;
      pickup_date = none;
      created_at = now;
      updated_at = now;
    } in
    if is_some (find p.household_id d.households)
    then (done row, record d { pickups = row ∷ d.pickups; next_id = suc d.next_id })
    else (failed_with foreign_key_violation, d)

unfoldable pub create : WastePickup → Action WastePickup
unfolding insert_pickup map_pickup_create_err
create p = exec (or_err map_pickup_create_err) (insert_pickup p)

-- sql.ErrNoRows is ErrNotFound, any other error ErrInternalFailure.
abbrev pub one_row : {A : Type 0} → Outcome (Option A) → Result A
one_row (done none) = err not_found
one_row (done (some a)) = ok a
one_row (failed_with e) = err internal_failure

unfoldable pub find_by_id : Uuid → Action WastePickup
find_by_id id = exec one_row (select_from (λ d. find id d.pickups))

-- A conditional UPDATE that affects no row is ErrConflict.
abbrev pub some_row : Outcome ℕ → Result (Unit {0})
some_row (done n) = if n == 0 then err conflict else ok tt
some_row (failed_with e) = err internal_failure

-- UPDATE waste_pickups SET change WHERE test
abbrev pub update_pickups : (WastePickup → Bool) → (WastePickup → WastePickup) → Db → Db
update_pickups test change d = record d { pickups = update test change d.pickups }

-- The status predicate that `UpdateStatus` puts in the WHERE clause for each new status.
unfoldable pub prior : PickupStatus → PickupStatus → Bool
prior completed s = s == scheduled
prior canceled s = s == PickupStatus.pending || s == scheduled
prior scheduled s = s == PickupStatus.pending
prior PickupStatus.pending s = true

unfoldable pub update_status_sql : Uuid → PickupStatus → Statement ℕ
unfolding prior
update_status_sql id status now d =
    let test : WastePickup → Bool = λ p. p.id == id && prior status p.status in
    (
      done (affected test d.pickups),
      update_pickups test (λ p. record p { status = status; updated_at = now }) d,
    )

unfoldable pub update_status : Uuid → PickupStatus → Action (Unit {0})
update_status id status = exec some_row (update_status_sql id status)

-- The same with the transaction that the caller passes.
unfoldable pub update_status_tx : Uuid → PickupStatus → Body (Unit {0})
update_status_tx id status = exec_tx some_row (update_status_sql id status)

unfoldable pub schedule_sql : Uuid → Time → Statement ℕ
schedule_sql id date now d =
    let test : WastePickup → Bool = λ p. p.id == id && p.status == PickupStatus.pending in
    (
      done (affected test d.pickups),
      update_pickups test
          (λ p. record p {
            status = scheduled;
            pickup_date = some (stored_time date);
            updated_at = now;
          })
          d,
    )

unfoldable pub schedule : Uuid → Time → Action (Unit {0})
schedule id date = exec some_row (schedule_sql id date)

unfoldable pub is_expired_organic : Time → WastePickup → Bool
is_expired_organic before p =
    p.type == organic && (p.status == PickupStatus.pending && ltb p.created_at before)

unfoldable pub find_expired_organic : Time → Action (List WastePickup)
find_expired_organic before =
    exec (or_err internal) (select_from (λ d. select (is_expired_organic before) d.pickups))

-- `id = ANY(ids)`
unfoldable pub any_of : List Uuid → Uuid → Bool
any_of [] id = false
any_of (i ∷ is) id = id == i || any_of is id

unfoldable pub is_cancellable : PickupStatus → Bool
is_cancellable s = s == PickupStatus.pending || s == scheduled

unfoldable pub bulk_cancel_sql : List Uuid → Statement ℕ
unfolding is_cancellable
bulk_cancel_sql ids now d =
    let test : WastePickup → Bool = λ p. any_of ids p.id && is_cancellable p.status in
    (
      done (affected test d.pickups),
      update_pickups test (λ p. record p { status = canceled; updated_at = now }) d,
    )

abbrev ignore_count : Outcome ℕ → Result (Unit {0})
ignore_count (done n) = ok tt
ignore_count (failed_with e) = err internal_failure

unfoldable pub bulk_cancel : List Uuid → Action (Unit {0})
bulk_cancel [] = pure tt
bulk_cancel (i ∷ is) = exec ignore_count (bulk_cancel_sql (i ∷ is))

unfoldable pub cancel_sql : Uuid → Statement ℕ
unfolding is_cancellable
cancel_sql id now d =
    let test : WastePickup → Bool = λ p. p.id == id && is_cancellable p.status in
    (
      done (affected test d.pickups),
      update_pickups test (λ p. record p { status = canceled; updated_at = now }) d,
    )

abbrev pub positive : Outcome ℕ → Result Bool
positive (done n) = ok (ltb 0 n)
positive (failed_with e) = err internal_failure

unfoldable pub cancel_if_cancellable : Uuid → Action Bool
cancel_if_cancellable id = exec positive (cancel_sql id)

-- household_id = $1 AND status = 'pending'
unfoldable pub is_pending_of : Uuid → Payment → Bool
is_pending_of household_id q = q.household_id == household_id && q.status == PaymentStatus.pending

unfoldable pub has_pending_payment_for_household : Uuid → Action Bool
has_pending_payment_for_household household_id =
    exec (or_err internal) (select_from (λ d. exists (is_pending_of household_id) d.payments))
