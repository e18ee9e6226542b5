-- ===== src/Engine/Bundle/Coherence.antt =====
-- The bundle of a simulated run agrees with itself.
use parity_lab.Prelude.{
  ℕ, suc, ◌+◌, ◌-◌, ◌≤◌, String, true, false, List, [], ◌∷◌, ◌≡◌, refl, subst, ◌↔◌, arith, All,
  length, if◌then◌else◌,
}
use parity_lab.Domain.{
  Time, Fault, no_fault, duplicate, reorder, timeout, tamper, other, passed, failed, Run, Scenario,
}
use parity_lab.Engine.Records.{RunBundle}
use parity_lab.Engine.Timeline.{
  is_tamper, EventSeed, events_from, seeds_of, build_events, build_report, report_assertions,
  report_findings, passed_count,
}
use parity_lab.Engine.Bundle.{last_at, first_at, build_run_bundle, finding_count}
use parity_lab.Engine.Memory.Stream.Pages.{IsAscending}

-- what holds between the parts of a bundle: the events are the run's and numbered in order, the
-- counts of the run are those of its events and of its report's findings, it ends with its last
-- event, the report is about the run, and the run passed exactly if every assertion did
pub record IsCoherent (bundle : RunBundle) : Type 0 where
  pub ascending : IsAscending 0 bundle.events
  pub owned : All (λ event. event.run_id ≡ bundle.run.id) bundle.events
  pub started : All (λ event. bundle.run.started_at ≤ event.at) bundle.events
  pub event_count : bundle.run.event_count ≡ length bundle.events
  pub finding_count : bundle.run.finding_count ≡ length bundle.report.findings
  pub completed : bundle.run.completed_at ≡ last_at bundle.events
  pub about : bundle.report.run ≡ bundle.run
  pub verdict :
      (bundle.run.status ≡ passed)
      ↔ (passed_count bundle.report.assertions ≡ length bundle.report.assertions)
  pub balanced : (bundle.run.status ≡ passed) ↔ (bundle.report.state.balanced ≡ true)

module _ (id : String) (started : Time) where
  events_from-IsAscending :
      (i : ℕ) (seeds : List EventSeed) → IsAscending i (events_from id started i seeds)
  unfolding events_from
  events_from-IsAscending i [] = tt
  events_from-IsAscending i (s ∷ seeds) = (
    omega arith,
    subst (λ n. IsAscending n (events_from id started (suc i) seeds)) (omega arith)
        (events_from-IsAscending (suc i) seeds),
  )

  events_from-owned :
      (i : ℕ) (seeds : List EventSeed)
      → All (λ event. event.run_id ≡ id) (events_from id started i seeds)
  unfolding events_from
  events_from-owned i [] = tt
  events_from-owned i (s ∷ seeds) = (refl, events_from-owned (suc i) seeds)

  events_from-started :
      (i : ℕ) (seeds : List EventSeed)
      → All (λ event. started ≤ event.at) (events_from id started i seeds)
  unfolding events_from
  events_from-started i [] = tt
  events_from-started i (s ∷ seeds) = (omega arith, events_from-started (suc i) seeds)

findings_lem :
    (id : String) (fault : Fault) → finding_count fault ≡ length (report_findings id fault)
unfolding finding_count report_findings
findings_lem id fault = ground arith

ends :
    (id : String) (start : Time) (fault : Fault)
    → start + (last_at (build_events id fault start) - first_at (build_events id fault start))
      ≡ last_at (build_events id fault start)
unfolding build_events seeds_of events_from
ends id start no_fault = omega arith
ends id start duplicate = omega arith
ends id start reorder = omega arith
ends id start timeout = omega arith
ends id start tamper = omega arith
ends id start (other s) = omega arith

verdict_lem :
    (run : Run) (fault : Fault)
    → ((if is_tamper fault then failed else passed) ≡ passed)
      ↔ (passed_count (report_assertions run fault) ≡ 3)
unfolding passed_count report_assertions
verdict_lem run fault = ground arith

balanced_lem :
    (fault : Fault)
    → ((if is_tamper fault then failed else passed) ≡ passed)
      ↔ ((if is_tamper fault then false else true) ≡ true)
balanced_lem fault = ground arith

-- Every bundle that is built for a simulated run is coherent, whatever the id, the number, the
-- scenario, the fault and the start.
pub build_run_bundle-IsCoherent :
    (id : String) (number : ℕ) (scenario : Scenario) (fault : Fault) (start : Time)
    → IsCoherent (build_run_bundle id number scenario fault start)
unfolding build_run_bundle build_events build_report report_findings report_assertions passed_count
    finding_count
build_run_bundle-IsCoherent id number scenario fault start = record {
  ascending = events_from-IsAscending id start 0 (seeds_of fault);
  owned = events_from-owned id start 0 (seeds_of fault);
  started = events_from-started id start 0 (seeds_of fault);
  event_count = refl;
  finding_count = findings_lem id fault;
  completed = ends id start fault;
  about = refl;
  verdict = verdict_lem (build_run_bundle id number scenario fault start).run fault;
  balanced = balanced_lem fault;
}
