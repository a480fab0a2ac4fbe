-- ===== src/Database/Effects.antt =====
-- The state of the program's surroundings, and actions on it that can fail.
use community_waste_collecti.Base.{
  ℕ, suc, ◌+◌, ◌*◌, ◌/◌, ◌%◌, ◌==◌, nat_eq, ltb, if◌then◌else◌, String, Bool, true, false, List,
  ◌∷◌,
}
use community_waste_collecti.Domain.{
  Uuid, Time, WasteType, Household, WastePickup, Payment, ProofKey, Error, internal_failure, Result,
  ok, err,
}

-- A parameter of type TIMESTAMPTZ: lib/pq sends its nanoseconds as text, of which PostgreSQL takes the
-- nearest microsecond, the even one of two.
unfoldable pub stored_time : Time → Time
stored_time t =
    let whole = t / 1000 in
    let rest = t % 1000 in
    if ltb rest 500
    then whole * 1000
    else if ltb 500 rest
    then (whole + 1) * 1000
    else if whole % 2 == 0
    then whole * 1000
    else (whole + 1) * 1000

-- The tables, and the supply behind gen_random_uuid(), which gives no value twice.
pub record Db : Type 0 where
  pub households : List Household
  pub pickups : List WastePickup
  pub payments : List Payment
  pub next_id : Uuid

pub data Reply : Type 0 where
  delivered : Reply  -- it took effect, and the program has its result
  refused : Reply  -- it failed and had no effect
  lost : Reply  -- it took effect, and the program sees an error

-- What the surroundings do at one call of the program.
pub record Turn : Type 0 where
  pub others : Db → Db
  pub reply : Reply
  pub now : Time
  pub nonce : Uuid
  pub scan : List ℕ  -- in which order a SELECT finds rows, where ORDER BY leaves that open

-- The n-th call meets the n-th turn.
abbrev pub Env : Type 0
Env = ℕ → Turn

pub data CancelReason : Type 0 where
  manual auto : CancelReason

-- The business counters of internal/observability/metrics.go.
pub data Metric : Type 0 where
  pickups_created_total pickups_completed_total : WasteType → Metric
  pickups_canceled_total : WasteType → CancelReason → ℕ → Metric
  payments_created_total payments_confirmed_total : Metric
  worker_cycles_total worker_cycles_failed_total s3_errors_total : Metric
  worker_expired_found_total organic_cancels_total s3_upload_bytes_total : ℕ → Metric

pub record StoredObject : Type 0 where
  pub key : ProofKey
  pub body : List ℕ
  pub size : ℕ
  pub content_type : String

pub record World : Type 0 where
  pub db : Db
  pub bucket : List StoredObject
  pub calls : ℕ
  pub metrics : List Metric

abbrev pub Action : Type 0 → Type 0
Action A = Env → World → Result A × World

-- The order of the next call, which takes no turn.
abbrev pub scan_order : Action (List ℕ)
scan_order env w = (ok (env w.calls).scan, w)

module _ {A : Type 0} where
  abbrev pub pure : A → Action A
  pure a env w = (ok a, w)

  abbrev pub raise : Error → Action A
  raise e env w = (err e, w)

-- What follows an error is skipped.
infixl 5 ◌>>=◌
abbrev pub ◌>>=◌ : {A B : Type 0} (m : Action A) (next : A → Action B) → Action B
◌>>=◌ m next env w = let (r, w') = m env w in elim r [ ok a ↦ next a env w' | err e ↦ (err e, w') ]

infixl 5 ◌>>◌
abbrev pub ◌>>◌ : {A B : Type 0} (m : Action A) (next : Action B) → Action B
m >> next = m >>= λ _. next

abbrev pub raise_if : Bool → Error → Action (Unit {0})
raise_if true e = raise e
raise_if false e = pure tt

abbrev pub emit : Metric → Action (Unit {0})
emit m env w = (ok tt, record w { metrics = m ∷ w.metrics })

-- time.Now()
abbrev pub clock : Action Time
clock env w = (ok (env w.calls).now, record w { calls = suc w.calls })

-- An error of database/sql or of the driver: a constraint with its SQLSTATE, or anything else.
pub data DbError : Type 0 where
  foreign_key_violation unique_violation check_violation other_failure : DbError

pub data Outcome (A : Type 0) : Type 0 where
  done : A → Outcome A
  failed_with : DbError → Outcome A

-- A statement reads and writes the tables; a violated constraint leaves them alone.
abbrev pub Statement : Type 0 → Type 0
Statement A = Time → Db → Outcome A × Db

abbrev pub answer : {A : Type 0} → Reply → Outcome A → Outcome A
answer delivered r = r
answer refused r = failed_with other_failure
answer lost r = failed_with other_failure

abbrev pub write : Reply → Db → Db → Db
write delivered d e = e
write refused d e = d
write lost d e = e

-- One round trip to PostgreSQL.
unfoldable pub query : {A : Type 0} → Statement A → Env → World → Outcome A × World
query stmt env w =
    let t = env w.calls in
    let d = t.others w.db in
    let (r, e) = stmt t.now d in
    (answer t.reply r, record w { db = write t.reply d e; calls = suc w.calls })

-- A statement outside a transaction. `interpret` is the code of the repository after the call.
abbrev pub exec : {A B : Type 0} → (Outcome A → Result B) → Statement A → Action B
exec interpret stmt env w = let (r, w') = query stmt env w in (interpret r, w')

-- `if err != nil { return nil, map(err) }; return a, nil`
abbrev pub or_err : {A : Type 0} → (DbError → Error) → Outcome A → Result A
or_err f (done a) = ok a
or_err f (failed_with e) = err (f e)

-- A failure that the repository reports as ErrInternalFailure, whatever it was.
abbrev pub internal : DbError → Error
internal e = internal_failure

-- A SELECT
abbrev pub select_from : {A : Type 0} → (Db → A) → Statement A
select_from f now d = (done (f d), d)

-- The body of a transaction, on the tables as they stand when its statements have their locks.
abbrev pub Body : Type 0 → Type 0
Body A = Time → Db → Result A × Db

abbrev pub exec_tx : {A B : Type 0} → (Outcome A → Result B) → Statement A → Body B
exec_tx interpret stmt now d = let (r, e) = stmt now d in (interpret r, e)

abbrev pub then_tx : {A B : Type 0} → Body A → (A → Body B) → Body B
then_tx m f now d = let (r, e) = m now d in elim r [ ok a ↦ f a now e | err x ↦ (err x, e) ]

abbrev pub settle : {A : Type 0} → Reply → Result A → Db → Db → Result A × Db
settle delivered (ok a) d e = (ok a, e)
settle delivered (err x) d e = (err x, d)
settle refused r d e = (err internal_failure, d)
settle lost (ok a) d e = (err internal_failure, e)
settle lost (err x) d e = (err internal_failure, d)

-- BeginTxx, the body, and Commit, or Rollback after an error. The four round trips are one turn: a
-- fault of any of them is ErrInternalFailure to the caller, the row locks of the body keep other
-- sessions from the rows that it has read, and what other sessions do before it commits stands
-- before it.
unfoldable pub transaction : {A : Type 0} → Body A → Action A
transaction body env w =
    let t = env w.calls in
    let d = t.others w.db in
    let (r, e) = body t.now d in
    let (r', d') = settle t.reply r d e in (r', record w { db = d'; calls = suc w.calls })
