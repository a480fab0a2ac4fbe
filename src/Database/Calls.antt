-- ===== src/Database/Calls.antt =====
-- Rules for actions: how the tables stand after a call, whatever the other sessions and the
-- connection do meanwhile.
use community_waste_collecti.Base.{suc, ◌≡◌, refl, ap, ◌∙◌, arith, inl, inr, ◌⊎◌}
use community_waste_collecti.Domain.{Error, Result, ok, err, Result-cases}
use community_waste_collecti.Database.Effects.{
  Db, Env, Reply, delivered, refused, lost, World, Action, ◌>>=◌, ◌>>◌, pure, Outcome, done,
  failed_with, DbError, Statement, answer, query, exec, or_err, internal, select_from, Body,
  transaction, write, settle,
}
use community_waste_collecti.Database.Integrity.{Legal, Rely, Legal-refl, Legal-trans}

-- The tables that a statement meets at its turn.
abbrev pub seen : Env → World → Db
seen env w = (env w.calls).others w.db

-- What returns a value after an action leaves the world as the action did.
pub pure_rule :
    {A B : Type 0} (w : World) (m : Action A) (b : B) (env : Env) {v : World}
    → Legal w.db (m env v).1.db
    → Legal w.db ((m >> pure b) env v).1.db
pure_rule w m b env {v} h = elim (Result-cases (m env v).0) [
  | inl (a, e) ↦ rw (e, ◌>>◌, ◌>>=◌) h
  | inr (x, e) ↦ rw (e, ◌>>◌, ◌>>=◌) h
]

module _ (env : Env) (rely : Rely env) where
  pub query-Legal :
      {A : Type 0} (stmt : Statement A) (w : World)
      → Legal (seen env w) (stmt (env w.calls).now (seen env w)).1
      → Legal w.db (query stmt env w).1.db
  unfolding query
  query-Legal stmt w h = Legal-trans (rely w.calls w.db) (go (env w.calls).reply)
    where
      go :
          (r : Reply)
          → Legal (seen env w) (write r (seen env w) (stmt (env w.calls).now (seen env w)).1)
      go delivered = h
      go refused = Legal-refl (seen env w)
      go lost = h

  pub transaction-Legal :
      {A : Type 0} (body : Body A) (w : World)
      → ((a : A)
          → (body (env w.calls).now (seen env w)).0 ≡ ok a
          → Legal (seen env w) (body (env w.calls).now (seen env w)).1)
      → Legal w.db (transaction body env w).1.db
  unfolding transaction
  transaction-Legal {A} body w h = Legal-trans (rely w.calls w.db) (
      go (env w.calls).reply (body (env w.calls).now (seen env w)).0
        (body (env w.calls).now (seen env w)).1 h)
    where
      go :
          (r : Reply) (x : Result A) (e : Db)
          → ((a : A) → x ≡ ok a → Legal (seen env w) e)
          → Legal (seen env w) (settle r x (seen env w) e).1
      go delivered (ok a) e k = k a refl
      go delivered (err y) e k = Legal-refl (seen env w)
      go refused x e k = Legal-refl (seen env w)
      go lost (ok a) e k = k a refl
      go lost (err y) e k = Legal-refl (seen env w)

-- A SELECT leaves the tables as it sees them.
pub select-db :
    {A : Type 0} (f : Db → A) (env : Env) (w : World)
    → (query (select_from f) env w).1.db ≡ seen env w
unfolding query
select-db f env w = ground arith

pub select-result :
    {A : Type 0} (f : Db → A) (env : Env) (w : World) (a : A)
    → (query (select_from f) env w).0 ≡ done a
    → f (seen env w) ≡ a
unfolding query
select-result f env w a e = ground arith

-- A call whose result reached the program took effect on the tables that it met.
pub query-done :
    {A : Type 0} (stmt : Statement A) (env : Env) (w : World) (a : A)
    → (query stmt env w).0 ≡ done a
    → ((stmt (env w.calls).now (seen env w)).0 ≡ done a)
      × ((query stmt env w).1.db ≡ (stmt (env w.calls).now (seen env w)).1)
unfolding query
query-done {A} stmt env w a e = go (env w.calls).reply (stmt (env w.calls).now (seen env w)).0 e
  where
    go :
        (r : Reply) (o : Outcome A)
        → answer r o ≡ done a
        → (o ≡ done a)
          × (write r (seen env w) (stmt (env w.calls).now (seen env w)).1
              ≡ (stmt (env w.calls).now (seen env w)).1)
    go delivered o k = (k, refl)
    go refused o k = absurd (cc k)
    go lost o k = absurd (cc k)

-- So did a transaction whose result reached the program.
pub transaction-ok :
    {A : Type 0} (body : Body A) (env : Env) (w : World) (a : A)
    → (transaction body env w).0 ≡ ok a
    → ((body (env w.calls).now (seen env w)).0 ≡ ok a)
      × ((transaction body env w).1.db ≡ (body (env w.calls).now (seen env w)).1)
unfolding transaction
transaction-ok {A} body env w a e =
    go (env w.calls).reply (body (env w.calls).now (seen env w)).0
      (body (env w.calls).now (seen env w)).1 e
  where
    go :
        (r : Reply) (x : Result A) (d : Db)
        → (settle r x (seen env w) d).0 ≡ ok a
        → (x ≡ ok a) × ((settle r x (seen env w) d).1 ≡ d)
    go delivered (ok b) d k = (k, refl)
    go delivered (err y) d k = absurd (cc k)
    go refused x d k = absurd (cc k)
    go lost (ok b) d k = absurd (cc k)
    go lost (err y) d k = absurd (cc k)

-- A transaction whose body fails is an error and leaves no trace.
pub transaction-err :
    {A : Type 0} (body : Body A) (env : Env) (w : World) (x : Error)
    → (body (env w.calls).now (seen env w)).0 ≡ err x
    → (y : Error) × ((transaction body env w).0 ≡ err y)
      × ((transaction body env w).1.db ≡ seen env w)
unfolding transaction
transaction-err {A} body env w x e =
    go (env w.calls).reply (body (env w.calls).now (seen env w)).0
      (body (env w.calls).now (seen env w)).1 e
  where
    go :
        (r : Reply) (o : Result A) (d : Db)
        → o ≡ err x
        → (y : Error) × ((settle r o (seen env w) d).0 ≡ err y)
          × ((settle r o (seen env w) d).1 ≡ seen env w)
    go delivered (ok b) d k = absurd (cc k)
    go delivered (err z) d k = (z, refl, refl)
    go refused o d k = (_, refl, refl)
    go lost (ok b) d k = absurd (cc k)
    go lost (err z) d k = (_, refl, refl)

-- A transaction leaves the tables as other sessions did, or it commits a body without an error.
pub transaction-cases :
    {A : Type 0} (body : Body A) (env : Env) (w : World)
    → ((transaction body env w).1.db ≡ seen env w)
      ⊎ ((a : A) × ((body (env w.calls).now (seen env w)).0 ≡ ok a)
          × ((transaction body env w).1.db ≡ (body (env w.calls).now (seen env w)).1))
unfolding transaction
transaction-cases {A} body env w =
    go (env w.calls).reply (body (env w.calls).now (seen env w)).0
      (body (env w.calls).now (seen env w)).1
  where
    go :
        (r : Reply) (x : Result A) (d : Db)
        → ((settle r x (seen env w) d).1 ≡ seen env w)
          ⊎ ((a : A) × (x ≡ ok a) × ((settle r x (seen env w) d).1 ≡ d))
    go delivered (ok b) d = inr (b, refl, refl)
    go delivered (err y) d = inl refl
    go refused x d = inl refl
    go lost (ok b) d = inr (b, refl, refl)
    go lost (err y) d = inl refl

-- After an action whose result is known, the rest runs from the world that it left.
pub bind-ok :
    {A B : Type 0} (m : Action A) (f : A → Action B) (env : Env) (w : World) {a : A} {w' : World}
    → m env w ≡ (ok a, w')
    → (m >>= f) env w ≡ f a env w'
bind-ok m f env w e = ap (λ s. elim s.0 [ ok a ↦ f a env s.1 | err x ↦ (err x, s.1) ]) e

-- A SELECT of a session that is alone on a connection that works.
pub select-answer :
    {A : Type 0} (f : Db → A) (env : Env) (w : World)
    → (env w.calls).reply ≡ delivered
    → ((d : Db) → (env w.calls).others d ≡ d)
    → exec (or_err internal) (select_from f) env w ≡ (ok (f w.db), record w { calls = suc w.calls })
select-answer {A} f env w works quiet =
    delivered_answer ∙ ap (λ d. (ok (f d), record w { db = d; calls = suc w.calls })) (quiet w.db)
  where
    delivered_answer :
        exec (or_err internal) (select_from f) env w
        ≡ (ok (f (seen env w)), record w { db = seen env w; calls = suc w.calls })
    delivered_answer = unfold query in rw works refl

pub or_err-ok :
    {A : Type 0} (f : DbError → Error) (o : Outcome A) (a : A) → or_err f o ≡ ok a → o ≡ done a
or_err-ok f (done b) a e = cc e
or_err-ok f (failed_with x) a e = absurd (cc e)
