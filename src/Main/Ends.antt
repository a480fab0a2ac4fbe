-- ===== src/Main/Ends.antt =====
-- How a process of cmd/api/main.go ends.
use community_waste_collecti.Base.{
  ℕ, ◌+◌, ◌≤◌, ◌≡◌, ◌≢◌, ◌⊎◌, refl, inl, inr, Bool, true, false, List, [], ◌∷◌, ◌++◌, Option, none,
  some, arith, Bool-cases, Option-cases,
}
use community_waste_collecti.Config.{Numbers, Config, validate}
use community_waste_collecti.Main.{
  Outside, Event, db_closed, http_shut_down, metrics_shut_down, tracer_shut_down, worker_canceled,
  wait, ends_at, drain_worker, shut_down, graceful_shutdown, init_infra, init_tracer, crash, main,
}

ends_at_bounds :
    (now deadline : ℕ) (takes : Option ℕ)
    → now ≤ deadline
    → (now ≤ ends_at now deadline takes) × (ends_at now deadline takes ≤ deadline)
unfolding ends_at
ends_at_bounds now deadline none h = ground arith
ends_at_bounds now deadline (some t) h = ground arith

drain_bounds :
    (now timeout : ℕ) (takes : Option ℕ)
    → (now ≤ (drain_worker now timeout takes).0)
      × ((drain_worker now timeout takes).0 ≤ now + timeout)
unfolding drain_worker
drain_bounds now timeout none = ground arith
drain_bounds now timeout (some t) = ground arith

-- The times of a log fall along the list, from a bound on: it is in order.
abbrev pub InOrder : ℕ → List (ℕ × Event) → Type 0
InOrder now [] = Unit {0}
InOrder now ((t, e) ∷ log) = (t ≤ now) × InOrder t log

InOrder-le :
    {now later : ℕ} (log : List (ℕ × Event)) → now ≤ later → InOrder now log → InOrder later log
InOrder-le [] h v = tt
InOrder-le ((t, e) ∷ log) h v = (omega (arith, v.0), v.1)

-- The clock and the log of a shutdown, up to its deadline
abbrev On : ℕ → ℕ × List (ℕ × Event) → Type 0
On deadline s = (s.0 ≤ deadline) × InOrder s.0 s.1

shut_down-On :
    (there : Bool) (e : Event) (deadline : ℕ) (takes : Option ℕ) (s : ℕ × List (ℕ × Event))
    → On deadline s
    → (s.0 ≤ (shut_down there e deadline takes s).0)
      × On deadline (shut_down there e deadline takes s)
unfolding shut_down
shut_down-On false e deadline takes (now, log) (h, v) = (omega arith, (h, v))
shut_down-On true e deadline takes (now, log) (h, v) =
    let (low, high) = ends_at_bounds now deadline takes h in
    (low, (high, (omega arith, InOrder-le log low v)))

module _ {Float : Type 0} (c : Config Float) (o : Outside) where
  -- Where a process ends: the database is closed as the last thing, after everything in the log, and
  -- no later than the two timeouts after the signal.
  abbrev pub Closes : List (ℕ × Event) → Type 0
  Closes events =
      (t : ℕ) × (log : List (ℕ × Event)) × (events ≡ (t, db_closed) ∷ log)
      × InOrder t log
      × (o.signal_at ≤ t)
      × (t ≤ o.signal_at + wait c.worker_shutdown_timeout + wait c.http_shutdown_timeout)

  graceful_shutdown-Closes : Closes (graceful_shutdown c o)
  unfolding graceful_shutdown
  graceful_shutdown-Closes =
      let timeout = wait c.worker_shutdown_timeout in
      let gone = drain_worker o.signal_at timeout o.worker_takes in
      let (since, within) = drain_bounds o.signal_at timeout o.worker_takes in
      let deadline = gone.0 + wait c.http_shutdown_timeout in
      let drained : ℕ × List (ℕ × Event) = (gone.0, gone ∷ (o.signal_at, worker_canceled) ∷ []) in
      let on0 : On deadline drained = (omega arith, (omega arith, (since, tt))) in
      let http = shut_down true http_shut_down deadline o.http_takes drained in
      let (a, on1) = shut_down-On true http_shut_down deadline o.http_takes drained on0 in
      let metrics = shut_down true metrics_shut_down deadline o.metrics_takes http in
      let (b, on2) = shut_down-On true metrics_shut_down deadline o.metrics_takes http on1 in
      let tracer = shut_down o.tracer_starts tracer_shut_down deadline o.tracer_takes metrics in
      let (d, on3) =
        shut_down-On o.tracer_starts tracer_shut_down deadline o.tracer_takes metrics on2 in
      (tracer.0, tracer.1, refl, on3.1, omega (arith, since, a, b, d), omega (arith, within, on3.0))

-- A process whose configuration Validate accepts, whose database, S3 client and bucket are there, and
-- whose metrics server can listen, ends with code 0, and closes its database as the last thing, after
-- the worker and the servers, no later than the timeouts of the worker and of HTTP after the signal,
-- however long the worker and the servers take and whether or not they end. Where the metrics server
-- cannot listen, the process ends with code 2 and shuts nothing down. Where the database, the S3
-- client or the bucket is missing, it exits with 1, has started at most its tracer and its database,
-- and shuts nothing down. Where Validate refuses, it exits with 1 and has started nothing.
pub main_ends :
    {Float : Type 0} (num : Numbers Float) (c : Config Float) (o : Outside)
    → ((validate num c ≡ none)
        × ((init_infra o).1 ≡ true)
        × (((o.metrics_listens ≡ true)
              × ((main num c o).exit_code ≡ 0)
              × Closes c o (main num c o).shutdown)
            ⊎ ((o.metrics_listens ≡ false)
                × ((main num c o).exit_code ≡ 2)
                × ((main num c o).shutdown ≡ []))))
      ⊎ ((validate num c ≡ none)
          × ((init_infra o).1 ≡ false)
          × ((main num c o).exit_code ≡ 1)
          × ((main num c o).started_parts ≡ (init_infra o).0 ++ init_tracer o)
          × ((main num c o).shutdown ≡ []))
      ⊎ ((validate num c ≢ none)
          × ((main num c o).exit_code ≡ 1)
          × ((main num c o).started_parts ≡ [])
          × ((main num c o).shutdown ≡ []))
unfolding main crash graceful_shutdown
main_ends num c o = elim (Option-cases (validate num c)) [
  | inr (name, e) ↦ inr (inr (rw (e, main) (λ h. absurd (cc h), refl, refl, refl)))
  | inl e ↦ elim (Bool-cases (init_infra o).1) [
    | inr missing ↦ inr (inl (rw (e, missing, main) (refl, refl, refl, refl, refl)))
    | inl ready ↦ elim (Bool-cases o.metrics_listens) [
      | inl listens ↦ inl (
          rw (e, ready, listens, main) (refl, refl, inl (refl, refl, graceful_shutdown-Closes c o)))
      | inr deaf ↦ inl (rw (e, ready, deaf, main) (refl, refl, inr (refl, refl, refl)))
    ]
  ]
]
