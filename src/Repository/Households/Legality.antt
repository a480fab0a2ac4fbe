-- ===== src/Repository/Households/Legality.antt =====
-- Legality of the statements of internal/repository/household.go.
use text.Mathlib.Text.{◌==◌ as str_eq}
use community_waste_collecti.Base.{
  ◌≡◌, refl, inl, inr, false, ◌||◌, arith, ◌==◌, nat_eq, Bool-cases,
}
use community_waste_collecti.Table.{find}
use community_waste_collecti.Domain.{Uuid, Time, Household, WastePickup, pickup_row, Payment}
use community_waste_collecti.Database.{Db}
use community_waste_collecti.Database.Integrity.{Legal, Legal-refl}
use community_waste_collecti.Database.Integrity.Households.{
  delete-Legal, insert_household-Legal as insertion-Legal,
}
use community_waste_collecti.Repository.Households.{
  insert_household, delete_household, of_household, owned_by, cascades,
}

pub insert_household-Legal :
    (h : Household) (now : Time) (d : Db) → Legal d (insert_household h now d).1
unfolding insert_household
insert_household-Legal h now d = elim (Bool-cases (str_eq h.owner_name "" || str_eq h.address "")) [
  | inl blank ↦ rw blank (Legal-refl d)
  | inr fine ↦ rw fine (λ v. insertion-Legal _ d v refl)
]

not_of_household :
    (id : Uuid) (p : WastePickup) → of_household id p ≡ false → (p.household_id == id) ≡ false
unfolding of_household
not_of_household id p e = e

not_cascaded :
    (id : Uuid) (d : Db) (q : Payment)
    → cascades id d q ≡ false
    → ((q.household_id == id) ≡ false) × (owned_by id (find q.waste_id d.pickups) ≡ false)
unfolding cascades
not_cascaded id d q e = elim (Bool-cases (q.household_id == id)) [
  | inl own ↦ absurd (ground (arith, own))
  | inr other ↦ (other, rw other at e)
]

pub delete_household-Legal :
    (id : Uuid) (now : Time) (d : Db) → Legal d (delete_household id now d).1
unfolding delete_household
delete_household-Legal id now d v =
    delete-Legal _ (of_household id) (cascades id d) d v
      (λ p h e same. rw same (not_of_household id p e))
      (λ q h e same. rw same (not_cascaded id d q e).0)
      (λ q p e found. rw found at ((not_cascaded id d q e).1))
      (λ q p e found same. rw found (ground (arith, e, same)))
