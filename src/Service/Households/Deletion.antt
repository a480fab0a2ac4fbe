-- ===== src/Service/Households/Deletion.antt =====
-- Delete of internal/service/household.go, with its cascades.
use community_waste_collecti.Base.{
  ℕ, ◌≡◌, refl, ◌∙◌, ap, none, arith, ◌==◌, nat_eq, Option-cases, inl, inr, Bool, Bool-cases, true,
  false, List, [], ◌∷◌,
}
use community_waste_collecti.Table.{find, delete, exists, affected, select}
use community_waste_collecti.Table.Laws.{find-key}
use community_waste_collecti.Table.Found.{deleted_from}
use community_waste_collecti.Domain.{Uuid, household_row, Payment, ok}
use community_waste_collecti.Database.{Db, Env, World, Outcome, done, failed_with, query}
use community_waste_collecti.Database.Integrity.{Inv, Rely}
use community_waste_collecti.Database.Calls.{seen, query-done}
use community_waste_collecti.Repository.Households
use community_waste_collecti.Repository.Households.{
  delete_household, deleted_row, of_household, cascades,
}
use community_waste_collecti.Service.Households.{remove}
use community_waste_collecti.Service.Pickups.Outcomes.{seen-Inv}

deleted_row-ok : (o : Outcome ℕ) → deleted_row o ≡ ok tt → (n : ℕ) × (o ≡ done n)
deleted_row-ok (done n) e = (n, refl)
deleted_row-ok (failed_with x) e = absurd (cc e)

-- The tables after the statement.
module _ (id : Uuid) (now : ℕ) (d : Db) (v : Inv d) where
  household_gone : find id (delete_household id now d).1.households ≡ none
  unfolding delete_household
  household_gone = elim (Option-cases (find id (delete_household id now d).1.households)) [
    | inl gone ↦ gone
    | inr (h, there) ↦
        let (was, kept) =
          deleted_from (λ x. x.id == id) id d.next_id d.households v.household_keys there in
        absurd (ground (arith, kept, find-key id h d.households was))
  ]

-- A DELETE leaves no row that satisfies its clause, nor one that satisfies a narrower one.
exists-delete :
    {A : Type 0} (narrow wide : A → Bool) (xs : List A)
    → ((x : A) → narrow x ≡ true → wide x ≡ true)
    → exists narrow (delete wide xs) ≡ false
unfolding exists affected delete select
exists-delete narrow wide [] h = refl
exists-delete narrow wide (x ∷ xs) h = elim (Bool-cases (wide x)) [
  | inl gone ↦ rw gone (exists-delete narrow wide xs h)
  | inr kept ↦ elim (Bool-cases (narrow x)) [
    | inl hit ↦ absurd (cc (h x hit, kept))
    | inr miss ↦ rw (kept, miss) (exists-delete narrow wide xs h)
  ]
]

cascade_own :
    (id : Uuid) (d : Db) (q : Payment) → (q.household_id == id) ≡ true → cascades id d q ≡ true
unfolding cascades
cascade_own id d q e = ground (arith, e)

pickups_gone :
    (id now : ℕ) (d : Db) → exists (of_household id) (delete_household id now d).1.pickups ≡ false
unfolding delete_household
pickups_gone id now d = exists-delete (of_household id) (of_household id) d.pickups (λ x e. e)

payments_gone :
    (id now : ℕ) (d : Db)
    → exists (λ q. q.household_id == id) (delete_household id now d).1.payments ≡ false
unfolding delete_household
payments_gone id now d =
    exists-delete (λ q. q.household_id == id) (cascades id d) d.payments (cascade_own id d)

-- Where `Delete` of a household returns without an error, the tables have neither the household nor
-- a pickup or a payment of it.
pub household_remove_ok :
    (env : Env) (rely : Rely env) (id : Uuid) (w : World)
    → Inv w.db
    → (remove id env w).0 ≡ ok tt
    → (find id (remove id env w).1.db.households ≡ none)
      × (exists (of_household id) (remove id env w).1.db.pickups ≡ false)
      × (exists (λ q. q.household_id == id) (remove id env w).1.db.payments ≡ false)
unfolding remove Households.remove
household_remove_ok env rely id w v e =
    let (n, answered) = deleted_row-ok (query (delete_household id) env w).0 e in
    let (counted, wrote) = query-done (delete_household id) env w n answered in
    let d : Db = seen env w in
    let now : ℕ = (env w.calls).now in
    (
      ap (λ (x : Db). find id x.households) wrote ∙ household_gone id now d (seen-Inv env rely w v),
      ap (λ (x : Db). exists (of_household id) x.pickups) wrote ∙ pickups_gone id now d,
      ap (λ (x : Db). exists (λ q. q.household_id == id) x.payments) wrote ∙ payments_gone id now d,
    )
