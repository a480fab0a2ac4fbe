-- ===== src/Handler/Between/Binding.antt =====
-- Rules for the steps before a call of a service, and bindAndValidate under them.
use community_waste_collecti.Base.{
  ℕ, Bool, true, false, ◌&&◌, ◌==◌, nat_eq, inl, inr, Bool-cases, Option-cases,
}
use community_waste_collecti.Database.{Db, Env, World, Action}
use community_waste_collecti.Domain.{Uuid}
use community_waste_collecti.Handler.Responses.{Response, Progress, Progress-cases}
use community_waste_collecti.Handler.Handling.{Handling, pure, call, respond, ◌>>=◌}
use community_waste_collecti.Handler.Requests.{Packages}
use community_waste_collecti.Handler.Validation.{
  db_exists, required_then, count_households, count_pickups, bind_household_request,
  bind_pickup_request, bind_schedule_request, bind_payment_request, checked_pickup, valid_if,
}
use community_waste_collecti.Handler.Between.{Kept, select_keeps, answer_keeps}

module _ (R : Db → Db → Type 0) (env : Env) (kept : Kept R env) where
  db_exists_keeps :
      (set : Bool) (count : Db → Uuid → ℕ) (id : Uuid) (w : World)
      → R w.db (required_then id (db_exists set count id) env w).1.db
  unfolding db_exists
  db_exists_keeps false count id w = elim (Bool-cases (id == 0)) [
    | inl e ↦ rw e (kept.same w.db)
    | inr e ↦ rw e (kept.same w.db)
  ]
  db_exists_keeps true count id w = elim (Bool-cases (id == 0)) [
    | inl e ↦ rw e (kept.same w.db)
    | inr e ↦ rw e (select_keeps R env kept (λ d. count d id) w)
  ]

  -- What follows a step on the request alone leaves the tables as that step did.
  pure_keeps :
      {A B : Type 0} (m : Handling A) (next : A → Progress B) (w : World)
      → R w.db (m env w).1.db
      → R w.db (◌>>=◌ m (λ a. pure (next a)) env w).1.db
  pure_keeps m next w first = elim (Progress-cases (m env w).0) [
    | inl (a, e) ↦ rw (e, ◌>>=◌) first
    | inr (x, e) ↦ rw (e, ◌>>=◌) first
  ]

  both_keeps :
      {A B C : Type 0} (m : Handling A) (n : Handling B) (next : A → B → Progress C) (w : World)
      → R w.db (m env w).1.db
      → ((v : World) → R v.db (n env v).1.db)
      → R w.db (◌>>=◌ m (λ a. n >>= λ b. pure (next a b)) env w).1.db
  both_keeps m n next w first second = elim (Progress-cases (m env w).0) [
    | inl (a, e) ↦
        let v = (m env w).1 in
        rw (e, ◌>>=◌) (kept.both w.db v.db _ first (pure_keeps n (next a) v (second v)))
    | inr (x, e) ↦ rw (e, ◌>>=◌) first
  ]

  pub bound_keeps :
      {A B : Type 0} (m : Handling A) (act : A → Action B) (answer : B → Response) (w : World)
      → R w.db (m env w).1.db
      → ((a : A) (v : World) → R v.db (act a env v).1.db)
      → R w.db (◌>>=◌ m (λ a. call (act a) >>= λ b. respond (answer b)) env w).1.db
  bound_keeps m act answer w first rest = elim (Progress-cases (m env w).0) [
    | inl (a, e) ↦
        let v = (m env w).1 in
        rw (e, ◌>>=◌)
          (kept.both w.db v.db _ first (answer_keeps R env kept (act a) answer v (rest a v)))
    | inr (x, e) ↦ rw (e, ◌>>=◌) first
  ]

module _ {Body Decimal : Type 0} (pkg : Packages Body Decimal) (R : Db → Db → Type 0) (env : Env)
    (kept : Kept R env) where
  pub bind_household_keeps :
      (body : Body) (w : World) → R w.db (bind_household_request pkg body env w).1.db
  unfolding bind_household_request
  bind_household_keeps body w = elim (Option-cases (pkg.bind_household body)) [
    | inl e ↦ rw e (kept.same w.db)
    | inr (req, e) ↦ rw e (kept.same w.db)
  ]

  pub bind_schedule_keeps :
      (body : Body) (w : World) → R w.db (bind_schedule_request pkg body env w).1.db
  unfolding bind_schedule_request
  bind_schedule_keeps body w = elim (Option-cases (pkg.bind_schedule body)) [
    | inl e ↦ rw e (kept.same w.db)
    | inr (req, e) ↦ rw e (kept.same w.db)
  ]

  pub bind_pickup_keeps :
      (set : Bool) (body : Body) (w : World) → R w.db (bind_pickup_request pkg set body env w).1.db
  unfolding bind_pickup_request
  bind_pickup_keeps set body w = elim (Option-cases (pkg.bind_pickup body)) [
    | inl e ↦ rw e (kept.same w.db)
    | inr (form, e) ↦ rw e (
        pure_keeps R env kept
          (required_then form.household_id (db_exists set count_households form.household_id))
          (checked_pickup form) w
          (db_exists_keeps R env kept set count_households form.household_id w))
  ]

  pub bind_payment_keeps :
      (set : Bool) (body : Body) (w : World) → R w.db (bind_payment_request pkg set body env w).1.db
  unfolding bind_payment_request
  bind_payment_keeps set body w = elim (Option-cases (pkg.bind_payment body)) [
    | inl e ↦ rw e (kept.same w.db)
    | inr (req, e) ↦ rw e (
        both_keeps R env kept
          (required_then req.household_id (db_exists set count_households req.household_id))
          (required_then req.waste_id (db_exists set count_pickups req.waste_id))
          (λ known found. valid_if (known && found && pkg.is_positive req.amount) req) w
          (db_exists_keeps R env kept set count_households req.household_id w)
          (λ v. db_exists_keeps R env kept set count_pickups req.waste_id v))
  ]
