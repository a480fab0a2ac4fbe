-- ===== src/Main.antt =====
-- cmd/api/main.go: start-up, the wait for a signal, and the graceful shutdown, as the events that they
-- cause. What the servers do in between is in Server.
pub mod Ends
pub mod Wiring
use community_waste_collecti.Base.{
  ℕ, ◌+◌, ◌-◌, Bool, true, false, List, [], ◌∷◌, ◌++◌, Option, none, some, String, leb,
  if◌then◌else◌, ℤ, pos, negsuc,
}
use community_waste_collecti.Config.{Numbers, Config, validate}

-- What is asked of the outside: whether the start-up calls succeed, when the signal comes, and how
-- long each party to the shutdown takes to end by itself, if it does. Times are nanoseconds. Where the
-- metrics server cannot listen, its goroutine panics, before or after the start of the API server.
pub record Outside : Type 0 where
  pub tracer_starts : Bool
  pub db_connects : Bool
  pub s3_starts : Bool
  pub bucket_ensured : Bool
  pub metrics_listens : Bool
  pub api_before_panic : Bool
  pub signal_at : ℕ
  pub worker_takes : Option ℕ
  pub http_takes : Option ℕ
  pub metrics_takes : Option ℕ
  pub tracer_takes : Option ℕ

pub data Event : Type 0 where
  tracer_started database_opened stats_collector_started : Event
  worker_started debug_server_started metrics_server_started api_server_started : Event
  worker_canceled worker_drained worker_abandoned : Event
  http_shut_down metrics_shut_down tracer_shut_down : Event
  db_closed : Event

-- A time.Duration that a timer waits for: no time, if it is not positive
abbrev pub wait : ℤ → ℕ
wait (pos n) = n
wait (negsuc n) = 0

-- The end of a party that began at `now` and is given up at `deadline`
unfoldable pub ends_at : ℕ → ℕ → Option ℕ → ℕ
ends_at now deadline none = if leb deadline now then now else deadline
ends_at now deadline (some t) =
    if leb (now + t) deadline then now + t else if leb deadline now then now else deadline

-- The select over workerDone and time.After
unfoldable pub drain_worker : ℕ → ℕ → Option ℕ → ℕ × Event
drain_worker now timeout none = (now + timeout, worker_abandoned)
drain_worker now timeout (some t) =
    if leb t timeout then (now + t, worker_drained) else (now + timeout, worker_abandoned)

-- `if srv != nil { srv.Shutdown(ctx) }`: an error of it is only logged.
unfoldable pub shut_down : Bool → Event → ℕ → Option ℕ → ℕ × List (ℕ × Event) → ℕ × List (ℕ × Event)
unfolding ends_at
shut_down false e deadline takes (now, log) = (now, log)
shut_down true e deadline takes (now, log) =
    let end = ends_at now deadline takes in (end, (end, e) ∷ log)

-- The events of gracefulShutdown, the last one first. The three servers share one deadline, set once
-- the worker is gone.
unfoldable pub graceful_shutdown : {Float : Type 0} → Config Float → Outside → List (ℕ × Event)
unfolding drain_worker shut_down
graceful_shutdown c o =
    let start = o.signal_at in
    let (gone, verdict) = drain_worker start (wait c.worker_shutdown_timeout) o.worker_takes in
    let log = (gone, verdict) ∷ (start, worker_canceled) ∷ [] in
    let deadline = gone + wait c.http_shutdown_timeout in
    let http = shut_down true http_shut_down deadline o.http_takes (gone, log) in
    let metrics = shut_down true metrics_shut_down deadline o.metrics_takes http in
    let tracer = shut_down o.tracer_starts tracer_shut_down deadline o.tracer_takes metrics in
    (tracer.0, db_closed) ∷ tracer.1

-- InitTracer: a tracer that does not start is logged, and left out of the shutdown.
unfoldable pub init_tracer : Outside → List Event
init_tracer o = if o.tracer_starts then tracer_started ∷ [] else []

-- mustInitInfra: what it has opened, the last one first, and whether it returns
unfoldable pub init_infra : Outside → List Event × Bool
init_infra o =
    if o.db_connects
    then (database_opened ∷ [], if o.s3_starts then o.bucket_ensured else false)
    else ([], false)

-- The parts that start after that, the last one first. StartMetricsServer returns no error, so that
-- there is a metrics server to shut down in any case.
abbrev pub background_parts : List Event
background_parts = debug_server_started ∷ worker_started ∷ stats_collector_started ∷ []

abbrev pub all_parts : List Event
all_parts = api_server_started ∷ metrics_server_started ∷ background_parts

pub record Run : Type 0 where
  pub exit_code : ℕ
  pub started_parts : List Event
  pub shutdown : List (ℕ × Event)

-- os.Exit(1): nothing that has been started is shut down.
abbrev pub exit_1 : List Event → Run
exit_1 parts = record { exit_code = 1; started_parts = parts; shutdown = [] }

-- A process that the panic of the metrics server ends before the signal
unfoldable pub crash : Outside → List Event → Run
crash o parts = record {
  exit_code = 2;
  started_parts = (if o.api_before_panic then all_parts else background_parts) ++ parts;
  shutdown = [];
}

unfoldable pub main : {Float : Type 0} → Numbers Float → Config Float → Outside → Run
unfolding init_tracer crash
main num c o = elim (validate num c) [
  | some name ↦ exit_1 []
  | none ↦
      let (opened, ready) = init_infra o in
      let parts = opened ++ init_tracer o in
      if ready
      then if o.metrics_listens
        then record {
          exit_code = 0;
          started_parts = all_parts ++ parts;
          shutdown = graceful_shutdown c o;
        }
        else crash o parts
      else exit_1 parts
]
