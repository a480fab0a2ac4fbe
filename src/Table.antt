-- ===== src/Table.antt =====
-- The tables behind internal/repository: what the SQL of the queries means on a list of rows.
-- A table lists its rows newest first; every row has its primary key in the column `id`.
pub mod Laws
pub mod Found
use community_waste_collecti.Base.{
  ℕ, suc, ◌<◌, Bool, not, List, [], ◌∷◌, Option, none, some, ◌==◌, nat_eq, if◌then◌else◌,
}

pub record Row {ℓ} (A : Type ℓ) : Type ℓ where
  pub key : A → ℕ

module _ {ℓ} {A : Type ℓ} ⦃r : Row A⦄ where
  -- SELECT * … WHERE id = i
  unfoldable pub find : ℕ → List A → Option A
  find i [] = none
  find i (x ∷ xs) = if r.key x == i then some x else find i xs

module _ {ℓ} {A : Type ℓ} where
  -- one row under UPDATE … SET change WHERE test
  abbrev pub set_if : (A → Bool) → (A → A) → A → A
  set_if test change x = if test x then change x else x

  -- UPDATE … SET change WHERE test
  unfoldable pub update : (A → Bool) → (A → A) → List A → List A
  update test change [] = []
  update test change (x ∷ xs) = set_if test change x ∷ update test change xs

  -- the number of rows that satisfy a WHERE clause: RowsAffected, COUNT(*)
  unfoldable pub affected : (A → Bool) → List A → ℕ
  affected test [] = 0
  affected test (x ∷ xs) = let rest = affected test xs in if test x then suc rest else rest

  -- SELECT * … WHERE test
  unfoldable pub select : (A → Bool) → List A → List A
  select test [] = []
  select test (x ∷ xs) = let rest = select test xs in if test x then x ∷ rest else rest

  -- SELECT EXISTS(SELECT 1 … WHERE test)
  unfoldable pub exists : (A → Bool) → List A → Bool
  unfolding affected
  exists test xs = not (affected test xs == 0)

  -- DELETE … WHERE test
  unfoldable pub delete : (A → Bool) → List A → List A
  unfolding select
  delete test xs = select (λ x. not (test x)) xs

-- Keys fall along the list and stay under the bound, so no key stands twice.
abbrev pub Below {ℓ} : {A : Type ℓ} ⦃r : Row A⦄ → ℕ → List A → Type 0
Below n [] = Unit {0}
Below ⦃r⦄ n (x ∷ xs) = (r.key x < n) × Below (r.key x) xs
