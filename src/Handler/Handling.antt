-- ===== src/Handler/Handling.antt =====
-- The control flow of internal/handler: a handler calls the services and writes one response.
use community_waste_collecti.Base.{◌≡◌, refl, inl, inr}
use community_waste_collecti.Domain.{ok, err, Result-cases}
use community_waste_collecti.Database.{Env, World, Action}
use community_waste_collecti.Handler.Responses.{Response, Progress, reached, answered, map_error}

abbrev pub Handling : Type 0 → Type 0
Handling A = Env → World → Progress A × World

infixl 5 ◌>>=◌
abbrev pub ◌>>=◌ : {A B : Type 0} (m : Handling A) (next : A → Handling B) → Handling B
◌>>=◌ m next env w =
    let (r, w') = m env w in elim r [ reached a ↦ next a env w' | answered x ↦ (answered x, w') ]

infixl 5 ◌>>◌
abbrev pub ◌>>◌ : {A B : Type 0} (m : Handling A) (next : Handling B) → Handling B
m >> next = m >>= λ _. next

module _ {A : Type 0} where
  -- Code that looks at the request alone.
  abbrev pub pure : Progress A → Handling A
  pure p env w = (p, w)

  -- `if err != nil { return mapError(c, err) }` after a call of a service
  unfoldable pub call : Action A → Handling A
  unfolding map_error
  call m env w =
      let (r, w') = m env w in
      elim r [ ok a ↦ (reached a, w') | err e ↦ (answered (map_error e), w') ]

-- `return respond(…)`
abbrev pub respond : Response → Handling Response
respond x env w = (reached x, w)

-- What a service's call leaves is there whatever the handler makes of its result.
pub call-world :
    {A : Type 0} (m : Action A) (env : Env) (w : World) → (call m env w).1 ≡ (m env w).1
unfolding call
call-world m env w = elim (Result-cases (m env w).0) [
  | inl (a, e) ↦ rw (e, call) refl
  | inr (x, e) ↦ rw (e, call) refl
]
