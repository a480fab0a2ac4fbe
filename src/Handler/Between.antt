-- ===== src/Handler/Between.antt =====
-- Rules for a relation between the tables before and after a handler, which the other sessions keep:
-- legality, or equality in a session that is alone.
pub mod Reads
pub mod Gets
pub mod Binding
pub mod Writes
use community_waste_collecti.Base.{ℕ, sym, subst, inl, inr}
use community_waste_collecti.Domain.{Result-cases}
use community_waste_collecti.Database.{
  Db, Env, World, Action, query, select_from, pure, ◌>>=◌, exec, or_err, internal,
}
use community_waste_collecti.Database.Calls.{select-db}
use community_waste_collecti.Handler.Responses.{Response}
use community_waste_collecti.Handler.Handling.{call, respond, ◌>>=◌ as then_handle}

-- A relation on tables that holds across what other sessions do.
pub record Kept (R : Db → Db → Type 0) (env : Env) : Type 0 where
  pub same : (d : Db) → R d d
  pub both : (c d e : Db) → R c d → R d e → R c e
  pub others : (n : ℕ) (d : Db) → R d ((env n).others d)

module _ (R : Db → Db → Type 0) (env : Env) (kept : Kept R env) where
  pub select_keeps :
      {A : Type 0} (f : Db → A) (w : World) → R w.db (query (select_from f) env w).1.db
  select_keeps f w = subst (R w.db) (sym (select-db f env w)) (kept.others w.calls w.db)

  -- A SELECT whose rows are worked on without another call.
  pub exec_keeps :
      {A B : Type 0} (f : Db → A) (after : A → B) (w : World)
      → R w.db ((exec (or_err internal) (select_from f) >>= λ a. pure (after a)) env w).1.db
  exec_keeps f after w = elim (Result-cases (exec (or_err internal) (select_from f) env w).0) [
    | inl (a, e) ↦ rw (e, ◌>>=◌) (select_keeps f w)
    | inr (x, e) ↦ rw (e, ◌>>=◌) (select_keeps f w)
  ]

  pub call_keeps :
      {A : Type 0} (m : Action A) (w : World) → R w.db (m env w).1.db → R w.db (call m env w).1.db
  unfolding call
  call_keeps m w h = elim (Result-cases (m env w).0) [
    | inl (a, e) ↦ rw (e, call) h
    | inr (x, e) ↦ rw (e, call) h
  ]

  -- The end of a handler: the call of a service, and the response made of its result.
  pub answer_keeps :
      {A : Type 0} (m : Action A) (answer : A → Response) (w : World)
      → R w.db (m env w).1.db
      → R w.db (then_handle (call m) (λ a. respond (answer a)) env w).1.db
  unfolding call
  answer_keeps m answer w h = elim (Result-cases (m env w).0) [
    | inl (a, e) ↦ rw (e, call, then_handle) (call_keeps m w h)
    | inr (x, e) ↦ rw (e, call, then_handle) (call_keeps m w h)
  ]
