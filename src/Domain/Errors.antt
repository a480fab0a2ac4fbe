-- ===== src/Domain/Errors.antt =====
-- internal/domain/errors.go. An error is the sentinel that it wraps: the text round it is left out.
use community_waste_collecti.Base.{◌≡◌, refl, ◌⊎◌, inl, inr}

pub data Error : Type 0 where
  not_found conflict business_rule validation internal_failure : Error

-- Go's pair of a value and an error, of which exactly one is set.
pub data Result (A : Type 0) : Type 0 where
  ok : A → Result A
  err : Error → Result A

pub Result-cases :
    {T : Type 0} (answer : Result T)
    → ((x : T) × (answer ≡ ok x)) ⊎ ((why : Error) × (answer ≡ err why))
Result-cases (ok x) = inl (x, refl)
Result-cases (err why) = inr (why, refl)
