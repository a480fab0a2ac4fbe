-- ===== src/System/Sessions.antt =====
-- Other sessions that only run the program's own commands: each from its start to its end between two
-- statements of the session that it is beside, with sessions of the same kind between its own.
use community_waste_collecti.Base.{ℕ, ◌≡◌, sym, subst, List}
use community_waste_collecti.Database.{Db, Env}
use community_waste_collecti.Database.Integrity.{Inv, Evolves, Legal, Rely, Legal-refl}
use community_waste_collecti.Storage.{S3Client}
use community_waste_collecti.Worker.{OrganicCanceler}
use community_waste_collecti.System.{Command, run, start_with}
use community_waste_collecti.System.Integrity.{run-Legal}

module _ (Decimal : Type 0) (s3 : S3Client) (canceler : OrganicCanceler) where
  -- What the other sessions do at each turn is nothing, or a run of commands, each statement of
  -- which meets turns of the same kind.
  pub data Sessions : Env → Type 0 where
    alone : {env : Env} → ((n : ℕ) (d : Db) → (env n).others d ≡ d) → Sessions env
    beside :
        {env : Env} (inner : ℕ → Env) (cs : ℕ → List (Command Decimal))
        → ((n : ℕ) → Sessions (inner n))
        → ((n : ℕ) (d : Db)
            → (env n).others d ≡ (run s3 canceler (cs n) (inner n) (start_with d)).db)
        → Sessions env

  Sessions-Rely : {env : Env} → Sessions env → Rely env
  Sessions-Rely (alone idle) n d = subst (Legal d) (sym (idle n d)) (Legal-refl d)
  Sessions-Rely (beside inner cs deeper acts) n d =
      subst (Legal d) (sym (acts n d))
        (run-Legal s3 canceler (inner n) (Sessions-Rely (deeper n)) (cs n) (start_with d))

  -- Sessions that run commands of the program within the turns of another session, nested to any
  -- depth, keep at each turn the integrity of the tables and the history of every row, which is what
  -- the theorems with the hypothesis `Rely` assume of the other sessions.
  pub nested_turns_keep_integrity :
      {env : Env}
      → Sessions env
      → (n : ℕ) (d : Db) → Inv d
      → Inv ((env n).others d) × Evolves d ((env n).others d)
  nested_turns_keep_integrity s n d v = Sessions-Rely s n d v
