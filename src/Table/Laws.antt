-- ===== src/Table/Laws.antt =====
-- The laws of the statements: what a row looked up by its key is after each of them.
use mathlib.Core.Option
use community_waste_collecti.Base.{
  ℕ, ◌≤◌, ◌<◌, ◌≡◌, refl, Bool, true, false, ◌&&◌, List, [], ◌∷◌, Option, none, some, arith, ◌==◌,
  nat_eq, if◌then◌else◌, Bool-cases, Option-cases, inl, inr,
}
use community_waste_collecti.Table.{Row, find, set_if, update, affected, select, exists, Below}

module _ {ℓ} {A : Type ℓ} ⦃r : Row A⦄ where
  pub Below-mono : {m n : ℕ} (xs : List A) → m ≤ n → Below m xs → Below n xs
  Below-mono [] h b = tt
  Below-mono (x ∷ xs) h b = (omega arith, b.1)

  pub find-key : (i : ℕ) (x : A) (xs : List A) → find i xs ≡ some x → r.key x ≡ i
  unfolding find
  find-key i x [] e = cc
  find-key i x (y ∷ ys) e = ground (arith, find-key i x ys)

  pub find-lt : (i n : ℕ) (x : A) (xs : List A) → Below n xs → find i xs ≡ some x → i < n
  unfolding find
  find-lt i n x [] b e = cc
  find-lt i n x (y ∷ ys) b e = ground (arith, find-lt i (r.key y) x ys b.1)

  pub find_above : (i n : ℕ) (xs : List A) → Below n xs → n ≤ i → find i xs ≡ none
  unfolding find
  find_above i n [] b h = refl
  find_above i n (x ∷ xs) b h = ground (arith, find_above i (r.key x) xs b.1)

  pub update-Below :
      (test : A → Bool) (change : A → A) (n : ℕ) (xs : List A)
      → ((x : A) → r.key (change x) ≡ r.key x)
      → Below n xs
      → Below n (update test change xs)
  unfolding update
  update-Below test change n [] keeps b = tt
  update-Below test change n (x ∷ xs) keeps b =
      ground (arith, keeps x, update-Below test change (r.key x) xs keeps b.1)

  pub select-Below : (test : A → Bool) (n : ℕ) (xs : List A) → Below n xs → Below n (select test xs)
  unfolding select
  select-Below test n [] b = tt
  select-Below test n (x ∷ xs) b =
      ground (
        arith,
        select-Below test (r.key x) xs b.1,
        Below-mono {m = r.key x} {n = n} (select test xs),
      )

  pub find-update :
      (test : A → Bool) (change : A → A) (i : ℕ) (xs : List A)
      → ((x : A) → r.key (change x) ≡ r.key x)
      → find i (update test change xs) ≡ Option.map (set_if test change) (find i xs)
  unfolding find update
  find-update test change i [] keeps = refl
  find-update test change i (x ∷ xs) keeps =
      ground (arith, keeps x, find-update test change i xs keeps)

  key_le : (x : A) {i : ℕ} → (r.key x == i) ≡ true → r.key x ≤ i
  key_le x e = ground arith

  abbrev pub keep : (A → Bool) → Option A → Option A
  keep test none = none
  keep test (some x) = if test x then some x else none

  pub find-select :
      (test : A → Bool) (i n : ℕ) (xs : List A)
      → Below n xs
      → find i (select test xs) ≡ keep test (find i xs)
  unfolding find select
  find-select test i n [] b = refl
  find-select test i n (x ∷ xs) b = elim (Bool-cases (test x)) [
    | inl kept ↦ rw kept (ground (arith, find-select test i (r.key x) xs b.1))
    | inr dropped ↦ elim (Bool-cases (r.key x == i)) [
      | inl hit ↦
          rw (hit, dropped)
            (find_above i (r.key x) (select test xs) (select-Below test (r.key x) xs b.1)
              (key_le x hit))
      | inr miss ↦ rw (dropped, miss) (find-select test i (r.key x) xs b.1)
    ]
  ]

  -- A WHERE clause that names the key affects one row at most, the one that it finds.
  pub affected-find :
      (c : A → Bool) (i n : ℕ) (xs : List A)
      → Below n xs
      → affected (λ x. r.key x == i && c x) xs
        ≡ (elim (keep c (find i xs)) [ none ↦ 0 | some _ ↦ 1 ])
  unfolding affected find
  affected-find c i n [] b = refl
  affected-find c i n (x ∷ xs) b =
      ground (arith, affected-find c i (r.key x) xs b.1, find_above i (r.key x) xs b.1)

  pub affected-some :
      (c : A → Bool) (i n : ℕ) (xs : List A)
      → Below n xs
      → (affected (λ x. r.key x == i && c x) xs == 0) ≡ false
      → (x : A) × (find i xs ≡ some x) × (c x ≡ true)
  affected-some c i n xs b e = elim (Option-cases (find i xs)) [
    | inl missing ↦ absurd (ground (arith, affected-find c i n xs b, missing))
    | inr (x, found) ↦ elim (Bool-cases (c x)) [
      | inl passes ↦ (x, found, passes)
      | inr fails ↦ absurd (ground (arith, affected-find c i n xs b, found, fails))
    ]
  ]

  pub exists-find :
      (test : A → Bool) (n : ℕ) (xs : List A)
      → Below n xs
      → exists test xs ≡ true
      → (i : ℕ) × (x : A) × (find i xs ≡ some x) × (test x ≡ true)
  unfolding exists find affected
  exists-find test n [] b e = cc
  exists-find test n (x ∷ xs) b e = elim (Bool-cases (test x)) [
    | inl hit ↦ (r.key x, x, ground arith, hit)
    | inr miss ↦
        let (i, y, found, passes) = exists-find test (r.key x) xs b.1 (ground (arith, miss)) in
        (i, y, ground (arith, find-lt i (r.key x) y xs b.1 found), passes)
  ]

  pub not-exists-find :
      (test : A → Bool) (i : ℕ) (x : A) (xs : List A)
      → exists test xs ≡ false
      → find i xs ≡ some x
      → test x ≡ false
  unfolding exists find affected
  not-exists-find test i x [] e f = cc
  not-exists-find test i x (y ∷ ys) e f = ground (arith, not-exists-find test i x ys)
