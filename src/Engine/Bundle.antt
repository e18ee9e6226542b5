-- ===== src/Engine/Bundle.antt =====
-- service.go: `buildRunBundle`, `scoreForFault`, `findingCount`.
pub mod Coherence
use parity_lab.Prelude.{
  ℕ, ◌+◌, ◌-◌, ◌/◌, String, Bool, true, false, List, [], ◌∷◌, if◌then◌else◌, length,
}
use parity_lab.Prelude.Text.{◌<>◌, padded}
use parity_lab.Domain.{Time, millisecond, Fault, passed, failed, Scenario, Run, Event}
use parity_lab.Engine.Records.{RunBundle}
use parity_lab.Engine.Timeline.{build_events, build_report, is_tamper, is_none}

unfoldable pub score_for_fault : Fault → ℕ
score_for_fault fault = if is_tamper fault then 72 else if is_none fault then 100 else 96

unfoldable pub finding_count : Fault → ℕ
finding_count fault = if is_none fault then 0 else 1

-- `events[0].At` and `events[len(events)-1].At`; a timeline is never empty
abbrev pub first_at : List Event → Time
first_at [] = 0
first_at (event ∷ events) = event.at

abbrev pub last_at : List Event → Time
last_at [] = 0
last_at (event ∷ []) = event.at
last_at (event ∷ next ∷ events) = last_at (next ∷ events)

unfoldable pub build_run_bundle : String → ℕ → Scenario → Fault → Time → RunBundle
unfolding score_for_fault finding_count
build_run_bundle id number scenario fault started =
    let events = build_events id fault started in
    let duration = last_at events - first_at events in
    let run : Run = record {
      id = id;
      scenario_id = scenario.id;
      scenario_name = scenario.name;
      fault = fault;
      status = if is_tamper fault then failed else passed;
      score = score_for_fault fault;
      started_at = started;
      completed_at = started + duration;
      duration_ms = duration / millisecond;
      event_count = length events;
      finding_count = finding_count fault;
      recovered = if is_tamper fault then false else true;
      environment = "sandbox";
      stripe_object_id = "pi_demo_" <> padded 6 number;
      merchant_order_id = "ord_" <> padded 6 number;
    } in
    record {
      run = run;
      events = events;
      report = build_report run fault;
      outbox_topic = "";
      stripe_correlation_id = "";
      verification_fault = fault;
    }
