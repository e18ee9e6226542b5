-- ===== src/Engine/Service/Overview/Counts.antt =====
-- What the overview counts and shows.
use parity_lab.Prelude.{
  ℕ, ◌+◌, ◌≤◌, Bool, List, [], ◌∷◌, ◌==◌, string_eq, ◌≡◌, length, take, keep, All,
}
use parity_lab.Prelude.Table.{Table}
use parity_lab.Domain.{Run, run_status_text}
use parity_lab.Engine.Memory.{MemoryRepository}
use parity_lab.Engine.Memory.Runs.{list_runs, events_of}
use parity_lab.Engine.Service.Overview.{Overview, OverviewStats}

-- the sum of a number of each run
abbrev pub sum_of : (Run → ℕ) → List Run → ℕ
sum_of f [] = 0
sum_of f (run ∷ runs) = f run + sum_of f runs

-- a run whose status reads `passed`
abbrev pub reads_passed : Run → Bool
reads_passed run = run_status_text run.status == "passed"

-- the duplicates among the stored events of a run
abbrev pub duplicates_of : MemoryRepository → Run → ℕ
duplicates_of r run = length (keep (λ event. event.is_duplicate) (events_of run.id r).0)

-- what the loop adds to the statistics
record IsCounted (r : MemoryRepository) (runs : List Run) (before after : OverviewStats)
    : Type 0 where
  total : after.total_runs ≡ before.total_runs + length runs
  passed_runs : after.passed_runs ≡ before.passed_runs + length (keep reads_passed runs)
  events : after.events_processed ≡ before.events_processed + sum_of (λ run. run.event_count) runs
  duplicates : after.duplicates_caught ≡ before.duplicates_caught + sum_of (duplicates_of r) runs

-- every run started no later than the runs before it
abbrev pub IsNewestFirst : List Run → Type 0
IsNewestFirst [] = Unit
IsNewestFirst (run ∷ runs) =
    All (λ other. other.started_at ≤ run.started_at) runs × IsNewestFirst runs

-- what an overview shows of a repository
pub record IsSummary (r : MemoryRepository) (o : Overview) : Type 0 where
  pub total : o.stats.total_runs ≡ length (list_runs r)
  pub passed_runs : o.stats.passed_runs ≡ length (keep reads_passed (list_runs r))
  pub events : o.stats.events_processed ≡ sum_of (λ run. run.event_count) (list_runs r)
  pub duplicates : o.stats.duplicates_caught ≡ sum_of (duplicates_of r) (list_runs r)
  pub recent : o.recent_runs ≡ take 5 (list_runs r)
  pub order : IsNewestFirst (list_runs r)
