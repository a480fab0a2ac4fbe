-- ===== src/Handler/Validation.antt =====
-- internal/handler/handler.go: bindAndValidate, and the tags that newValidator registers, on the
-- requests of internal/domain.
use community_waste_collecti.Base.{
  ℕ, String, Bool, true, false, not, ◌&&◌, Option, none, some, ◌==◌, nat_eq, string_eq, ltb,
  if◌then◌else◌,
}
use community_waste_collecti.Table.{affected}
use community_waste_collecti.Domain.{
  Uuid, WasteType, organic, plastic, paper, electronic, CreateHouseholdRequest, CreatePickupRequest,
  SchedulePickupRequest, CreatePaymentRequest,
}
use community_waste_collecti.Database.{Db, query, select_from, Outcome, done, failed_with}
use community_waste_collecti.Handler.Responses.{Progress, reached, answered, bad_request, parsed}
use community_waste_collecti.Handler.Handling.{Handling, ◌>>=◌, pure}
use community_waste_collecti.Handler.Requests.{PickupForm, Packages}

-- `_ = db.GetContext(ctx, &n, …)`: after an error n is still 0.
abbrev pub count_of : Outcome ℕ → ℕ
count_of (done n) = n
count_of (failed_with e) = 0

-- The two tags db_exists_…, over the table that their query counts; `configured` is `db != nil`.
unfoldable pub db_exists : Bool → (Db → Uuid → ℕ) → Uuid → Handling Bool
db_exists configured count id =
    if not configured
    then pure (reached true)
    else if id == 0
    then pure (reached false)
    else λ env w.
        let (r, w') = query (select_from (λ d. count d id)) env w in
        (reached (ltb 0 (count_of r)), w')

-- The tags `required,db_exists_…` of a UUID: the zero value fails the first, and the second is not
-- asked then.
abbrev pub required_then : Uuid → Handling Bool → Handling Bool
required_then id test = if id == 0 then pure (reached false) else test

-- SELECT COUNT(*) FROM households WHERE id=$1
unfoldable pub count_households : Db → Uuid → ℕ
count_households d id = affected (λ h. h.id == id) d.households

-- SELECT COUNT(*) FROM waste_pickups WHERE id=$1
unfoldable pub count_pickups : Db → Uuid → ℕ
count_pickups d id = affected (λ p. p.id == id) d.pickups

-- `oneof=organic plastic paper electronic`, with the constants of internal/domain
unfoldable pub waste_type_of : String → Option WasteType
waste_type_of text =
    if text == "organic"
    then some organic
    else if text == "plastic"
    then some plastic
    else if text == "paper"
    then some paper
    else if text == "electronic"
    then some electronic
    else none

abbrev pub picked_up : PickupForm → WasteType → CreatePickupRequest
picked_up form type = record {
  household_id = form.household_id;
  type = type;
  safety_check = form.safety_check;
}

-- The answer to a request that v.StructCtx refuses
abbrev pub valid_if : {A : Type 0} → Bool → A → Progress A
valid_if true req = reached req
valid_if false req = answered bad_request

-- The verdict on a form, of whose household the database has said whether it is known
abbrev pub checked_pickup : PickupForm → Bool → Progress CreatePickupRequest
checked_pickup form known = elim (waste_type_of form.type) [
  | none ↦ answered bad_request
  | some type ↦ valid_if known (picked_up form type)
]

module _ {Body Decimal : Type 0} (pkg : Packages Body Decimal) where
  unfoldable pub bind_household_request : Body → Handling CreateHouseholdRequest
  bind_household_request body = do
    req ← pure (parsed (pkg.bind_household body))
    pure (valid_if (pkg.household_tags req) req)

  -- Every field is looked at before the answer: the tags of the first one query the database.
  unfoldable pub bind_pickup_request : Bool → Body → Handling CreatePickupRequest
  unfolding db_exists count_households waste_type_of
  bind_pickup_request db_configured body = do
    form ← pure (parsed (pkg.bind_pickup body))
    known ←
        required_then form.household_id (db_exists db_configured count_households form.household_id)
    pure (checked_pickup form known)

  unfoldable pub bind_schedule_request : Body → Handling SchedulePickupRequest
  bind_schedule_request body = do
    req ← pure (parsed (pkg.bind_schedule body))
    pure (valid_if (pkg.schedule_tags req) req)

  -- An amount that is positive is not the zero value, which `required` refuses.
  unfoldable pub bind_payment_request : Bool → Body → Handling (CreatePaymentRequest Decimal)
  unfolding db_exists count_households count_pickups
  bind_payment_request db_configured body = do
    req ← pure (parsed (pkg.bind_payment body))
    known ←
        required_then req.household_id (db_exists db_configured count_households req.household_id)
    found ← required_then req.waste_id (db_exists db_configured count_pickups req.waste_id)
    pure (valid_if (known && found && pkg.is_positive req.amount) req)
