-- ===== src/Engine/Service/Overview.antt =====
-- service.go: `Overview`, and the seeded runs of a new service. The in-memory reads never fail.
pub mod Counts
pub mod Starts
use parity_lab.Prelude.{
  ℕ, suc, ◌+◌, ◌*◌, String, Bool, true, false, List, [], ◌∷◌, Option, none, some, if◌then◌else◌,
  take,
}
use parity_lab.Prelude.Text.{◌<>◌}
use parity_lab.Failure.{Try, ok, err, message}
use parity_lab.Domain.{
  Time, minute, Fault, duplicate, reorder, timeout, fault_text, Scenario, Run, Event, Finding,
  RunStatus, no_status, running, passed, failed,
}
use parity_lab.Engine.Records.{Digest, RunBundle}
use parity_lab.Engine.Memory.{MemoryRepository, new_memory_repository}
use parity_lab.Engine.Memory.Runs.{run_id, run_of, events_of, list_runs, insert_newest, create_run}
use parity_lab.Engine.Scenarios.{seeded_scenarios, find_scenario}
use parity_lab.Engine.Bundle.{build_run_bundle}
use parity_lab.Engine.Service.{demo_epoch, number_from_run_id}

pub record OverviewStats : Type 0 where
  pub total_runs : ℕ
  pub passed_runs : ℕ
  pub events_processed : ℕ
  pub duplicates_caught : ℕ
  pub p95_latency_ms : ℕ

pub record CategoryReadiness : Type 0 where
  pub id : String
  pub label : String
  pub score : ℕ

pub record Overview : Type 0 where
  pub readiness_score : ℕ
  pub grade : String
  pub environment : String
  pub last_verified_at : Time
  pub stats : OverviewStats
  pub categories : List CategoryReadiness
  pub recent_runs : List Run
  pub critical : Option Finding

abbrev has_passed : RunStatus → Bool
has_passed passed = true
has_passed no_status = false
has_passed running = false
has_passed failed = false

-- the loop over the events of a run
unfoldable pub count_duplicates : List Event → ℕ → ℕ
count_duplicates [] n = n
count_duplicates (event ∷ events) n =
    count_duplicates events (if event.is_duplicate then n + 1 else n)

-- the statistics after one more run
unfoldable pub with_run : MemoryRepository → Run → OverviewStats → OverviewStats
unfolding count_duplicates
with_run r run stats = record stats {
  total_runs = stats.total_runs + 1;
  events_processed = stats.events_processed + run.event_count;
  passed_runs = if has_passed run.status then stats.passed_runs + 1 else stats.passed_runs;
  duplicates_caught = count_duplicates (events_of run.id r).0 stats.duplicates_caught;
}

-- the loop over the runs
unfoldable pub count_runs : MemoryRepository → List Run → OverviewStats → OverviewStats
unfolding with_run
count_runs r [] stats = stats
count_runs r (run ∷ runs) stats = count_runs r runs (with_run r run stats)

abbrev pub no_stats : OverviewStats
no_stats = record {
  total_runs = 0;
  passed_runs = 0;
  events_processed = 0;
  duplicates_caught = 0;
  p95_latency_ms = 0;
}

-- `sort.Slice` by `StartedAt`, the latest first
unfoldable pub sort_newest : List Run → List Run
sort_newest [] = []
sort_newest (run ∷ runs) = insert_newest run (sort_newest runs)

abbrev last_verified : List Run → Time
last_verified [] = demo_epoch
last_verified (run ∷ runs) = run.completed_at

unfoldable pub overview : MemoryRepository → Overview
unfolding count_runs sort_newest
overview r =
    let runs = list_runs r in
    let recent = take 5 (sort_newest runs) in
    record {
      readiness_score = 96;
      grade = "production_ready";
      environment = "sandbox";
      last_verified_at = last_verified recent;
      stats = record (count_runs r runs no_stats) { p95_latency_ms = 184 };
      categories =
          record { id = "idempotency"; label = "Idempotency"; score = 100 }
          ∷ record { id = "webhooks"; label = "Webhook resilience"; score = 98 }
          ∷ record { id = "subscriptions"; label = "Subscription lifecycle"; score = 94 }
          ∷ record { id = "reconciliation"; label = "State convergence"; score = 93 }
          ∷ [];
      recent_runs = recent;
      critical = none;
    }

-- `domain.Scenario{}`, which an unknown seed would get
abbrev pub zero_scenario : Scenario
zero_scenario = record {
  id = "";
  name = "";
  description = "";
  category = "";
  duration_ms = 0;
  supported_faults = [];
  assertions = [];
  difficulty = "";
  recommended = false;
  estimated_event_count = 0;
}

abbrev pub seeds : List (String × Fault)
seeds =
    ("checkout-duplicate", duplicate)
    ∷ ("webhook-disorder", reorder)
    ∷ ("endpoint-recovery", timeout)
    ∷ []

abbrev pub found_or_zero : Option Scenario → Scenario
found_or_zero none = zero_scenario
found_or_zero (some scenario) = scenario

-- the bundle of the `index`-th seed
abbrev pub seed_bundle : (String → Option ℕ) → ℕ → String → Fault → RunBundle
seed_bundle atoi index scenario fault =
    let id = run_id (index + 1) in
    build_run_bundle id (number_from_run_id atoi id)
      (found_or_zero (find_scenario seeded_scenarios scenario)) fault
      (demo_epoch + index * (17 * minute))

module _ (sha256 : String → Digest) (atoi : String → Option ℕ) (now : Time) where
  -- the creation of the `index`-th seed
  unfoldable pub create_seed :
      ℕ → String → Fault → MemoryRepository → Try (Run × Bool) × MemoryRepository
  create_seed index scenario fault r =
      create_run now (sha256 ("paritylab:seed:" <> scenario))
        (sha256 (scenario <> ":" <> fault_text fault)) (seed_bundle atoi index scenario fault) r

  -- the loop over the seeds, from the `index`-th
  unfoldable pub seed_from :
      ℕ → List (String × Fault) → MemoryRepository → Try (Unit {0}) × MemoryRepository
  unfolding create_seed
  seed_from index [] r = (ok tt, r)
  seed_from index ((scenario, fault) ∷ rest) r =
      let (created, r') = create_seed index scenario fault r in
      let kept = seed_from (suc index) rest r in
      let added = seed_from (suc index) rest r' in
      if (run_of (run_id (index + 1)) r).1
      then kept
      else elim created [ err e ↦ (err e, r') | ok run ↦ added ]

  unfoldable pub ensure_seed_runs : MemoryRepository → Try (Unit {0}) × MemoryRepository
  unfolding seed_from
  ensure_seed_runs r = seed_from 0 seeds r

  -- `NewServiceWithRepository`: how it ends, with the repository; an error that is wrapped is itself
  unfoldable pub new_service_with_repository :
      Option MemoryRepository → Try (Unit {0}) × Option MemoryRepository
  unfolding ensure_seed_runs
  new_service_with_repository none = (err (message "repository is required"), none)
  new_service_with_repository (some r) = let (answer, r') = ensure_seed_runs r in (answer, some r')

  -- `NewService`, which panics where there is none
  unfoldable pub new_service : Option MemoryRepository
  unfolding new_service_with_repository new_memory_repository
  new_service =
      let (answer, r) = new_service_with_repository (some new_memory_repository) in
      elim answer [ ok done ↦ r | err e ↦ none ]
