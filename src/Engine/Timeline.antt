-- ===== src/Engine/Timeline.antt =====
-- timeline.go: the events and the report of a simulated run.
use parity_lab.Prelude.{
  ℕ, suc, ◌+◌, ◌*◌, String, Bool, true, false, List, [], ◌∷◌, ◌++◌, if◌then◌else◌, length,
}
use parity_lab.Prelude.Text.{◌<>◌, decimal, padded}
use parity_lab.Domain.{
  Time, millisecond, Fault, no_fault, duplicate, reorder, timeout, tamper, other, Run, EventStatus,
  healthy, diverged, recovered, blocked, text, number, flag, Event, Assertion, Finding, Report,
}

pub record EventSeed : Type 0 where
  pub offset : ℕ
  pub source : String
  pub target : String
  pub type_name : String
  pub title : String
  pub detail : String
  pub status : EventStatus
  pub latency : ℕ
  pub checkpoint : String
  pub duplicate : Bool

-- `eventSeed{…}`, by position
abbrev pub seed :
    ℕ → String → String → String → String → String → EventStatus → ℕ → String → Bool → EventSeed
seed offset source target type_name title detail status latency checkpoint is_duplicate = record {
  offset = offset;
  source = source;
  target = target;
  type_name = type_name;
  title = title;
  detail = detail;
  status = status;
  latency = latency;
  checkpoint = checkpoint;
  duplicate = is_duplicate;
}

-- `runID[4:]`, of an id that has at least four bytes
unfoldable pub after_prefix : String → String
after_prefix id = Prim.Native.String.slice id 4 (Prim.Native.String.len id)

-- the seeds that every timeline starts with
abbrev pub first_seeds : List EventSeed
first_seeds =
    (seed 0 "browser" "merchant-api" "checkout.submitted" "Checkout submitted"
      "The customer confirms a sandbox payment." healthy 34 "request" false)
    ∷ (seed 420 "merchant-api" "stripe" "payment_intent.created" "PaymentIntent created"
        "Stripe accepted the idempotent create request." healthy 118 "stripe-object" false)
    ∷ (seed 980 "stripe" "customer" "payment_intent.succeeded" "Payment confirmed"
        "The sandbox payment reached a terminal success state." healthy 146 "payment" false)
    ∷ (seed 1460 "stripe" "webhook-ingress" "webhook.delivered" "Webhook delivered"
        "The signature is verified against the untouched request body." healthy 82 "signature"
        false)
    ∷ (seed 1840 "webhook-ingress" "outbox" "event.persisted" "Event persisted"
        "Raw metadata and the transactional outbox record commit together." healthy 24 "durability"
        false)
    ∷ []

-- the seeds of the injected fault
abbrev pub fault_seeds : Fault → List EventSeed
fault_seeds duplicate =
    (seed 2260 "stripe" "webhook-ingress" "webhook.duplicate" "Duplicate delivery detected"
      "The event identifier already exists; no second business effect is created." diverged 76
      "deduplication" true)
    ∷ (seed 2680 "webhook-ingress" "worker" "duplicate.suppressed" "Duplicate suppressed"
        "The consumer checkpoint advances without replaying the order mutation." recovered 31
        "deduplication" true)
    ∷ []
fault_seeds reorder =
    (seed 2260 "stripe" "worker" "webhook.reordered" "Older event arrived late"
      "An earlier lifecycle snapshot arrives after the terminal event." diverged 92 "ordering"
      false)
    ∷ (seed 2840 "worker" "stripe" "state.hydrated" "Current state hydrated"
        "The worker fetches the current Stripe object instead of trusting delivery order." recovered
        134 "ordering" false)
    ∷ []
fault_seeds timeout =
    (seed 2260 "stripe" "webhook-ingress" "endpoint.timeout" "Endpoint timed out"
      "The first delivery exceeds the injected response deadline." diverged 500 "delivery" false)
    ∷ (seed 3260 "stripe" "webhook-ingress" "webhook.retried" "Delivery retried"
        "The retry enters the same durable idempotent pipeline." recovered 88 "delivery" false)
    ∷ []
fault_seeds tamper =
    (seed 2260 "stripe" "webhook-ingress" "signature.invalid" "Tampered payload blocked"
      "The computed signature does not match the signed payload." blocked 12 "signature" false)
    ∷ []
fault_seeds no_fault = []
fault_seeds (other s) = []

-- the seeds of a timeline that converges
abbrev pub last_seeds : List EventSeed
last_seeds =
    (seed 3720 "worker" "merchant-db" "order.reconciled" "Merchant state reconciled"
      "Stripe, webhook-derived, and merchant state agree." recovered 43 "convergence" false)
    ∷ (seed 4200 "grader" "report" "run.completed" "All invariants verified"
        "Deterministic assertions produce a passing report." healthy 19 "verdict" false)
    ∷ []

abbrev pub is_tamper : Fault → Bool
is_tamper tamper = true
is_tamper no_fault = false
is_tamper duplicate = false
is_tamper reorder = false
is_tamper timeout = false
is_tamper (other s) = false

abbrev pub is_none : Fault → Bool
is_none no_fault = true
is_none duplicate = false
is_none reorder = false
is_none timeout = false
is_none tamper = false
is_none (other s) = false

unfoldable pub seeds_of : Fault → List EventSeed
seeds_of fault =
    let seeds = first_seeds ++ fault_seeds fault in
    if is_tamper fault then seeds else seeds ++ last_seeds

-- the event of the `i`-th seed, from 0
abbrev pub event_of : String → Time → ℕ → EventSeed → Event
event_of id started i s = record {
  id = "evt_" <> after_prefix id <> "_" <> padded 2 (i + 1);
  run_id = id;
  sequence = i + 1;
  at = started + s.offset * millisecond;
  source = s.source;
  target = s.target;
  type = s.type_name;
  title = s.title;
  detail = s.detail;
  status = s.status;
  latency_ms = s.latency;
  checkpoint = s.checkpoint;
  trace_id = "trace_" <> after_prefix id;
  evidence =
      ("attempt", number 1)
      ∷ ("livemode", flag false)
      ∷ ("api_version", text "2026-06-30.basil")
      ∷ ("payload_saved", flag false)
      ∷ [];
  is_duplicate = s.duplicate;
}

-- the loop over the seeds, from the `i`-th
unfoldable pub events_from : String → Time → ℕ → List EventSeed → List Event
unfolding after_prefix
events_from id started i [] = []
events_from id started i (s ∷ seeds) =
    event_of id started i s ∷ events_from id started (suc i) seeds

unfoldable pub build_events : String → Fault → Time → List Event
unfolding seeds_of events_from
build_events id fault started = events_from id started 0 (seeds_of fault)

unfoldable pub passed_count : List Assertion → ℕ
passed_count [] = 0
passed_count (a ∷ as_) = if a.passed then suc (passed_count as_) else passed_count as_

unfoldable pub state_for_fault : Fault → String
state_for_fault fault = if is_tamper fault then "unchanged" else "succeeded"

unfoldable pub finding_title : Fault → String
finding_title duplicate = "Duplicate delivery safely suppressed"
finding_title reorder = "Out-of-order event reconciled"
finding_title timeout = "Endpoint recovered on retry"
finding_title tamper = "Tampered payload rejected"
finding_title no_fault = "Injected condition observed"
finding_title (other s) = "Injected condition observed"

unfoldable pub finding_checkpoint : Fault → String
finding_checkpoint duplicate = "deduplication"
finding_checkpoint reorder = "ordering"
finding_checkpoint timeout = "delivery"
finding_checkpoint tamper = "signature"
finding_checkpoint no_fault = "verdict"
finding_checkpoint (other s) = "verdict"

-- the three assertions, with what a tampered request overwrites in them
unfoldable pub report_assertions : Run → Fault → List Assertion
report_assertions run fault =
    record {
      id = "assert_stripe_state";
      name = "Stripe state reached terminal success";
      passed = if is_tamper fault then false else true;
      expected = "succeeded";
      observed = if is_tamper fault then "blocked before processing" else "succeeded";
      evidence = run.stripe_object_id;
    }
    ∷ record {
      id = "assert_single_effect";
      name = "Exactly one merchant business effect";
      passed = true;
      expected = "1 order";
      observed = "1 order";
      evidence = run.merchant_order_id;
    }
    ∷ record {
      id = "assert_convergence";
      name = "All state projections converge";
      passed = if is_tamper fault then false else true;
      expected = "balanced";
      observed = if is_tamper fault then "not evaluated" else "balanced";
      evidence = "stripe = webhook = merchant";
    }
    ∷ []

-- the finding of an injected fault, with what a tampered request overwrites in it
unfoldable pub report_findings : String → Fault → List Finding
unfolding finding_title finding_checkpoint after_prefix
report_findings id fault =
    if is_none fault
    then []
    else record {
      id = "finding_" <> after_prefix id;
      severity = if is_tamper fault then "critical" else "info";
      title = finding_title fault;
      summary =
          if is_tamper fault
          then "The signature invariant prevented an untrusted payload from entering the event pipeline."
          else "ParityLab observed the injected fault and captured the recovery evidence.";
      cause =
          "A deterministic sandbox fault was inserted at the "
          <> finding_checkpoint fault
          <> " checkpoint.";
      remediation =
          if is_tamper fault
          then "Rotate any exposed webhook secret and preserve raw-body signature verification."
          else "No action required. Keep the demonstrated invariant covered in continuous verification.";
      checkpoint = finding_checkpoint fault;
      resolved = if is_tamper fault then false else true;
    }
      ∷ []

unfoldable pub build_report : Run → Fault → Report
unfolding report_assertions report_findings passed_count state_for_fault
build_report run fault =
    let assertions = report_assertions run fault in
    record {
      run = run;
      summary =
          decimal (passed_count assertions)
          <> " of "
          <> decimal (length assertions)
          <> " deterministic assertions passed.";
      verdict =
          if is_tamper fault
          then "The tampered request was blocked. Downstream convergence was intentionally not evaluated."
          else "Integration survived the injected condition and converged without data loss.";
      assertions = assertions;
      findings = report_findings run.id fault;
      state = record {
        stripe = "succeeded";
        webhook = state_for_fault fault;
        merchant = state_for_fault fault;
        balanced = if is_tamper fault then false else true;
      };
      generated = run.completed_at + 20 * millisecond;
    }
