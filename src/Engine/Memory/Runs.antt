-- ===== src/Engine/Memory/Runs.antt =====
-- memory_repository.go: run creation with idempotent replay, and the reads of runs, events and reports
-- for everybody, for a project and for the public. A read returns the value beside its `ok`.
pub mod Replay
pub mod Listing
pub mod Keys
pub mod Tenancy
pub mod Isolation
pub mod Closed
use parity_lab.Prelude.{
  ℕ, ◌+◌, String, Bytes, Bool, true, false, List, [], ◌∷◌, Option, none, some, ◌==◌, string_eq,
  bytes_eq, if◌then◌else◌, ◌&&◌, not, ltb,
}
use parity_lab.Prelude.Table.{Table, lookup, insert, get_or, has}
use parity_lab.Prelude.Text.{◌<>◌, padded}
use parity_lab.Prelude.Hex.{hex_encode}
use parity_lab.Failure.{Try, ok, err, idempotency_conflict}
use parity_lab.Domain.{Time, Run, Event, Report, zero_run, zero_report}
use parity_lab.Engine.Records.{Digest, RunBundle}
use parity_lab.Engine.Memory.{MemoryRepository, IdempotencyRecord, enqueue}

-- `runID`
unfoldable pub run_id : ℕ → String
run_id n = "run_" <> padded 6 n

unfoldable pub tenant_idempotency_key : String → Digest → String
tenant_idempotency_key project_id key_hash = project_id <> (":" <> hex_encode key_hash)

unfoldable pub next_run_id : MemoryRepository → String × MemoryRepository
unfolding run_id
next_run_id r = (run_id r.next_run, record r { next_run = r.next_run + 1 })

-- what a stored record answers to a request: the run, or a conflict
abbrev pub replayed : Digest → MemoryRepository → IdempotencyRecord → Try (Run × Bool)
replayed request_hash r previous =
    if not (previous.request_hash == request_hash)
    then err idempotency_conflict
    else ok (get_or previous.run_id zero_run r.runs, true)

unfoldable pub replay_run : Digest → Digest → MemoryRepository → Try (Run × Bool)
replay_run key_hash request_hash r = elim (lookup key_hash r.idempotency) [
  | none ↦ ok (zero_run, false)
  | some previous ↦ replayed request_hash r previous
]

unfoldable pub replay_run_for_project :
    String → Digest → Digest → MemoryRepository → Try (Run × Bool)
unfolding tenant_idempotency_key
replay_run_for_project project_id key_hash request_hash r =
    elim (lookup (tenant_idempotency_key project_id key_hash) r.tenant_idempotency) [
      | none ↦ ok (zero_run, false)
      | some previous ↦ replayed request_hash r previous
    ]

-- what both creations write of the bundle; `cloneEvents` copies a slice, which a list needs not
abbrev pub stored : RunBundle → MemoryRepository → MemoryRepository
stored bundle r = record r {
  runs = insert bundle.run.id bundle.run r.runs;
  events = insert bundle.run.id bundle.events r.events;
  reports = insert bundle.run.id bundle.report r.reports;
  correlation_by_run = insert bundle.run.id bundle.stripe_correlation_id r.correlation_by_run;
}

abbrev pub record_of : Digest → RunBundle → IdempotencyRecord
record_of request_hash bundle = record { request_hash = request_hash; run_id = bundle.run.id }

-- `now` is the clock that the outbox reads.
unfoldable pub create_run :
    Time → Digest → Digest → RunBundle → MemoryRepository → Try (Run × Bool) × MemoryRepository
create_run now key_hash request_hash bundle r = elim (lookup key_hash r.idempotency) [
  | some previous ↦ (replayed request_hash r previous, r)
  | none ↦
      let r' = record (stored bundle r) {
        idempotency = insert key_hash (record_of request_hash bundle) r.idempotency;
      } in
      (ok (bundle.run, false), enqueue now bundle r')
]

unfoldable pub create_run_for_project :
    Time
    → String
    → Digest
    → Digest
    → RunBundle
    → MemoryRepository
    → Try (Run × Bool) × MemoryRepository
unfolding tenant_idempotency_key
create_run_for_project now project_id key_hash request_hash bundle r =
    let key = tenant_idempotency_key project_id key_hash in
    elim (lookup key r.tenant_idempotency) [
      | some previous ↦ (replayed request_hash r previous, r)
      | none ↦
          let r' = record (stored bundle r) {
            project_by_run = insert bundle.run.id project_id r.project_by_run;
            tenant_idempotency = insert key (record_of request_hash bundle) r.tenant_idempotency;
          } in
          (ok (bundle.run, false), enqueue now bundle r')
    ]

unfoldable pub put_seed : RunBundle → MemoryRepository → MemoryRepository
put_seed bundle r = record r {
  runs = insert bundle.run.id bundle.run r.runs;
  events = insert bundle.run.id bundle.events r.events;
  reports = insert bundle.run.id bundle.report r.reports;
}

-- `Run`, `Events`, `Report`
unfoldable pub run_of : String → MemoryRepository → Run × Bool
run_of id r = (get_or id zero_run r.runs, has id r.runs)

unfoldable pub events_of : String → MemoryRepository → List Event × Bool
events_of id r = (get_or id [] r.events, has id r.events)

unfoldable pub report_of : String → MemoryRepository → Report × Bool
report_of id r = (get_or id zero_report r.reports, has id r.reports)

unfoldable pub run_for_project : String → String → MemoryRepository → Run × Bool
run_for_project project_id id r =
    (get_or id zero_run r.runs, has id r.runs && get_or id "" r.project_by_run == project_id)

unfoldable pub events_for_project : String → String → MemoryRepository → List Event × Bool
unfolding run_for_project events_of
events_for_project project_id id r =
    if (run_for_project project_id id r).1 then events_of id r else ([], false)

unfoldable pub report_for_project : String → String → MemoryRepository → Report × Bool
unfolding run_for_project report_of
report_for_project project_id id r =
    if (run_for_project project_id id r).1 then report_of id r else (zero_report, false)

unfoldable pub public_run : String → MemoryRepository → Run × Bool
public_run id r = (get_or id zero_run r.runs, has id r.runs && not (has id r.project_by_run))

unfoldable pub public_events : String → MemoryRepository → List Event × Bool
unfolding public_run events_of
public_events id r = if (public_run id r).1 then events_of id r else ([], false)

unfoldable pub public_report : String → MemoryRepository → Report × Bool
unfolding public_run report_of
public_report id r = if (public_run id r).1 then report_of id r else (zero_report, false)

-- `sort.Slice` by `StartedAt`, the latest first; runs that started together keep the map's order
unfoldable pub insert_newest : Run → List Run → List Run
insert_newest run [] = run ∷ []
insert_newest run (other ∷ runs) =
    if ltb run.started_at other.started_at
    then other ∷ insert_newest run runs
    else run ∷ other ∷ runs

-- the values of a map whose keys pass a test, sorted
unfoldable pub newest_first : (String → Bool) → Table String Run → List Run
unfolding insert_newest
newest_first wanted [] = []
newest_first wanted ((id, run) ∷ runs) =
    let rest = newest_first wanted runs in if wanted id then insert_newest run rest else rest

unfoldable pub list_runs : MemoryRepository → List Run
unfolding newest_first
list_runs r = newest_first (λ id. true) r.runs

unfoldable pub list_runs_for_project : String → MemoryRepository → List Run
unfolding newest_first
list_runs_for_project project_id r =
    newest_first (λ id. get_or id "" r.project_by_run == project_id) r.runs

unfoldable pub list_public_runs : MemoryRepository → List Run
unfolding newest_first
list_public_runs r = newest_first (λ id. not (has id r.project_by_run)) r.runs
