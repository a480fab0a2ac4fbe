-- ===== src/Table/Found.antt =====
-- Where a row that is found after a statement comes from, and where a row found before it has gone.
use mathlib.Core.Option
use community_waste_collecti.Base.{
  ℕ, ◌≡◌, refl, sym, ◌∙◌, ap, Bool, true, false, not, List, ◌∷◌, Option, none, some, arith, ◌⊎◌,
  inl, inr, Bool-cases, ◌&&◌, ◌==◌, nat_eq,
}
use community_waste_collecti.Table.{Row, find, set_if, update, delete, Below}
use community_waste_collecti.Table.Laws.{find-update, find-select, find-lt, find-key, keep}

map-eq-some {ℓ} :
    {A : Type ℓ} (f : A → A) (o : Option A) {y : A}
    → Option.map f o ≡ some y
    → (x : A) × (o ≡ some x) × (y ≡ f x)
map-eq-some f none e = cc
map-eq-some f (some x) e = (x, refl, cc)

module _ {ℓ} {A : Type ℓ} ⦃r : Row A⦄ where
  keep-eq-some :
      (test : A → Bool) (o : Option A) {y : A}
      → keep test o ≡ some y
      → (o ≡ some y) × (test y ≡ true)
  keep-eq-some test none e = cc
  keep-eq-some test (some x) e = ground arith

  pub updated_from :
      (test : A → Bool) (change : A → A) (i : ℕ) (xs : List A) {y : A}
      → ((x : A) → r.key (change x) ≡ r.key x)
      → find i (update test change xs) ≡ some y
      → (x : A) × (find i xs ≡ some x) × (y ≡ set_if test change x)
  updated_from test change i xs keeps e =
      map-eq-some (set_if test change) (find i xs) (sym (find-update test change i xs keeps) ∙ e)

  pub updated_to :
      (test : A → Bool) (change : A → A) (i : ℕ) (xs : List A) {x : A}
      → ((x : A) → r.key (change x) ≡ r.key x)
      → find i xs ≡ some x
      → find i (update test change xs) ≡ some (set_if test change x)
  updated_to test change i xs keeps e =
      find-update test change i xs keeps ∙ ap (Option.map (set_if test change)) e

  -- The row whose key an UPDATE names has the change, if it satisfies the rest of the clause.
  pub updated_hit :
      (c : A → Bool) (change : A → A) (i : ℕ) (xs : List A) {x : A}
      → ((x : A) → r.key (change x) ≡ r.key x)
      → find i xs ≡ some x
      → c x ≡ true
      → find i (update (λ y. r.key y == i && c y) change xs) ≡ some (change x)
  updated_hit c change i xs {x} keeps found passes =
      updated_to (λ y. r.key y == i && c y) change i xs keeps found
      ∙ ap some (rw ((nat_eq.equals_iff (r.key x) i).1 (find-key i x xs found), passes) refl)

  pub inserted_from :
      (x : A) (i : ℕ) (xs : List A) {y : A}
      → find i (x ∷ xs) ≡ some y
      → ((y ≡ x) × (i ≡ r.key x)) ⊎ (find i xs ≡ some y)
  unfolding find
  inserted_from x i xs e = elim (Bool-cases (r.key x == i)) [
    | inl hit ↦ inl (ground arith, ground arith)
    | inr miss ↦ inr (rw miss at e)
  ]

  pub inserted_to :
      (x : A) (i : ℕ) (xs : List A) {y : A}
      → Below (r.key x) xs
      → find i xs ≡ some y
      → find i (x ∷ xs) ≡ some y
  unfolding find
  inserted_to x i xs {y} b e = ground (arith, find-lt i (r.key x) y xs b e)

  pub deleted_from :
      (test : A → Bool) (i n : ℕ) (xs : List A) {y : A}
      → Below n xs
      → find i (delete test xs) ≡ some y
      → (find i xs ≡ some y) × (test y ≡ false)
  unfolding delete
  deleted_from test i n xs b e =
      let (found, kept) =
        keep-eq-some (λ x. not (test x)) (find i xs)
          (sym (find-select (λ x. not (test x)) i n xs b) ∙ e) in
      (found, ground arith)

  pub deleted_to :
      (test : A → Bool) (i n : ℕ) (xs : List A) {y : A}
      → Below n xs
      → find i xs ≡ some y
      → test y ≡ false
      → find i (delete test xs) ≡ some y
  unfolding delete
  deleted_to test i n xs b e f = find-select (λ x. not (test x)) i n xs b ∙ rw (e, f) refl

  pub find-head : (x : A) (xs : List A) → find (r.key x) (x ∷ xs) ≡ some x
  unfolding find
  find-head x xs = rw ((nat_eq.equals_iff (r.key x) (r.key x)).1 refl)
