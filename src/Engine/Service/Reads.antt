-- ===== src/Engine/Service/Reads.antt =====
-- service.go: the reads of `Service` over the in-memory repository, which serves projects and the public
-- and whose reads never fail.
use parity_lab.Prelude.{ℕ, String, Bool, List}
use parity_lab.Domain.{Run, Event, Report, Scenario}
use parity_lab.Engine.Records.{EventStreamBatch}
use parity_lab.Engine.Memory.{MemoryRepository}
use parity_lab.Engine.Memory.Runs.{
  run_of, events_of, report_of, run_for_project, events_for_project, report_for_project, public_run,
  public_events, public_report, list_runs, list_runs_for_project, list_public_runs,
}
use parity_lab.Engine.Memory.Stream.{events_after, events_after_for_project, public_events_after}
use parity_lab.Engine.Scenarios.{seeded_scenarios}

unfoldable pub service_scenarios : List Scenario
service_scenarios = seeded_scenarios

unfoldable pub service_run_for_project : String → String → MemoryRepository → Run × Bool
service_run_for_project project_id id r = run_for_project project_id id r

unfoldable pub service_runs_for_project : String → MemoryRepository → List Run
service_runs_for_project project_id r = list_runs_for_project project_id r

unfoldable pub service_events_for_project : String → String → MemoryRepository → List Event × Bool
service_events_for_project project_id id r = events_for_project project_id id r

unfoldable pub service_events_after_for_project :
    String → String → ℕ → ℕ → MemoryRepository → EventStreamBatch × Bool
service_events_after_for_project project_id id after limit r =
    events_after_for_project project_id id after limit r

unfoldable pub service_report_for_project : String → String → MemoryRepository → Report × Bool
service_report_for_project project_id id r = report_for_project project_id id r

unfoldable pub service_public_run : String → MemoryRepository → Run × Bool
service_public_run id r = public_run id r

unfoldable pub service_public_runs : MemoryRepository → List Run
service_public_runs r = list_public_runs r

unfoldable pub service_public_events : String → MemoryRepository → List Event × Bool
service_public_events id r = public_events id r

unfoldable pub service_public_events_after :
    String → ℕ → ℕ → MemoryRepository → EventStreamBatch × Bool
service_public_events_after id after limit r = public_events_after id after limit r

unfoldable pub service_public_report : String → MemoryRepository → Report × Bool
service_public_report id r = public_report id r

unfoldable pub service_run : String → MemoryRepository → Run × Bool
service_run id r = run_of id r

unfoldable pub service_events_after : String → ℕ → ℕ → MemoryRepository → EventStreamBatch × Bool
service_events_after id after limit r = events_after id after limit r

unfoldable pub service_runs : MemoryRepository → List Run
service_runs r = list_runs r

unfoldable pub service_events : String → MemoryRepository → List Event × Bool
service_events id r = events_of id r

unfoldable pub service_report : String → MemoryRepository → Report × Bool
service_report id r = report_of id r
