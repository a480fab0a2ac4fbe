-- ===== src/Repository/Households.antt =====
-- internal/repository/household.go
pub mod Legality
use community_waste_collecti.Base.{
  ℕ, suc, Bool, false, Option, none, some, ◌||◌, ◌∷◌, ◌==◌, nat_eq, if◌then◌else◌,
}
use text.Mathlib.Text.{◌==◌ as str_eq}
use community_waste_collecti.Table.{find, affected, delete}
use community_waste_collecti.Domain.{
  Uuid, Household, WastePickup, Payment, household_row, pickup_row, not_found, internal_failure,
  Result, ok, err,
}
use community_waste_collecti.Database.{
  Db, Outcome, done, failed_with, check_violation, Statement, Action, exec, or_err, internal,
  select_from,
}
use community_waste_collecti.Repository.Pickups.{one_row}

-- INSERT INTO households (owner_name, address) … RETURNING *, with the CHECKs on both lengths
unfoldable pub insert_household : Household → Statement Household
insert_household h now d =
    let row : Household = record h { id = d.next_id; created_at = now; updated_at = now } in
    if str_eq h.owner_name "" || str_eq h.address ""
    then (failed_with check_violation, d)
    else (done row, record d { households = row ∷ d.households; next_id = suc d.next_id })

unfoldable pub create : Household → Action Household
create h = exec (or_err internal) (insert_household h)

unfoldable pub find_by_id : Uuid → Action Household
find_by_id id = exec one_row (select_from (λ d. find id d.households))

unfoldable pub of_household : Uuid → WastePickup → Bool
of_household id p = p.household_id == id

abbrev pub owned_by : Uuid → Option WastePickup → Bool
owned_by id none = false
owned_by id (some p) = p.household_id == id

-- ON DELETE CASCADE: the payments of the household, and those of its pickups.
unfoldable pub cascades : Uuid → Db → Payment → Bool
cascades id d q = q.household_id == id || owned_by id (find q.waste_id d.pickups)

-- DELETE FROM households WHERE id = $1
unfoldable pub delete_household : Uuid → Statement ℕ
unfolding of_household cascades
delete_household id now d =
    let test : Household → Bool = λ h. h.id == id in
    (
      done (affected test d.households),
      record d {
        households = delete test d.households;
        pickups = delete (of_household id) d.pickups;
        payments = delete (cascades id d) d.payments;
      },
    )

-- No row deleted is ErrNotFound.
abbrev pub deleted_row : Outcome ℕ → Result (Unit {0})
deleted_row (done n) = if n == 0 then err not_found else ok tt
deleted_row (failed_with e) = err internal_failure

unfoldable pub remove : Uuid → Action (Unit {0})
remove id = exec deleted_row (delete_household id)
