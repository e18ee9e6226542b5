-- ===== src/Engine/Scenarios.antt =====
-- scenarios.go, and what service.go reads of a scenario: `Service.Scenario` and `supportsFault`.
use parity_lab.Prelude.{
  String, Bool, true, false, List, [], ◌∷◌, Option, none, some, ◌==◌, string_eq, if◌then◌else◌,
}
use parity_lab.Domain.{Fault, no_fault, duplicate, reorder, timeout, tamper, fault_text, Scenario}

unfoldable pub seeded_scenarios : List Scenario
seeded_scenarios =
    record {
      id = "checkout-duplicate";
      name = "Duplicate checkout submission";
      description =
          "Proves repeated customer submissions produce one PaymentIntent and one merchant order.";
      category = "idempotency";
      duration_ms = 4200;
      supported_faults = no_fault ∷ duplicate ∷ [];
      assertions = "one Stripe object" ∷ "one merchant order" ∷ "stable response replay" ∷ [];
      difficulty = "essential";
      recommended = true;
      estimated_event_count = 8;
    }
    ∷ record {
      id = "webhook-disorder";
      name = "Out-of-order webhooks";
      description =
          "Delivers lifecycle events in reverse order and verifies current-state convergence.";
      category = "webhooks";
      duration_ms = 5800;
      supported_faults = no_fault ∷ reorder ∷ tamper ∷ [];
      assertions = "signature verified" ∷ "delivery order independent" ∷ "state converged" ∷ [];
      difficulty = "advanced";
      recommended = true;
      estimated_event_count = 9;
    }
    ∷ record {
      id = "endpoint-recovery";
      name = "Endpoint outage and recovery";
      description =
          "Injects a temporary timeout, observes retry behavior, and proves exactly-once business effects.";
      category = "resilience";
      duration_ms = 7200;
      supported_faults = no_fault ∷ timeout ∷ [];
      assertions = "fast acknowledgement" ∷ "retry recovered" ∷ "no event loss" ∷ [];
      difficulty = "advanced";
      recommended = false;
      estimated_event_count = 10;
    }
    ∷ record {
      id = "subscription-renewal";
      name = "Subscription renewal recovery";
      description =
          "Advances a test clock through renewal failure and successful payment recovery.";
      category = "subscriptions";
      duration_ms = 8600;
      supported_faults = no_fault ∷ reorder ∷ timeout ∷ [];
      assertions =
          "entitlement state correct" ∷ "invoice reconciled" ∷ "recovery communicated" ∷ [];
      difficulty = "advanced";
      recommended = false;
      estimated_event_count = 12;
    }
    ∷ record {
      id = "refund-convergence";
      name = "Partial refund convergence";
      description =
          "Compares Stripe, webhook-derived, and merchant refund state down to integer minor units.";
      category = "reconciliation";
      duration_ms = 6100;
      supported_faults = no_fault ∷ duplicate ∷ reorder ∷ [];
      assertions = "minor units exact" ∷ "refund idempotent" ∷ "three-way state balanced" ∷ [];
      difficulty = "intermediate";
      recommended = false;
      estimated_event_count = 9;
    }
    ∷ []

-- the loop of `Service.Scenario`
unfoldable pub find_scenario : List Scenario → String → Option Scenario
find_scenario [] id = none
find_scenario (scenario ∷ scenarios) id =
    if scenario.id == id then some scenario else find_scenario scenarios id

-- the loop of `supportsFault`, which compares the faults as strings
unfoldable pub supports : List Fault → Fault → Bool
supports [] fault = false
supports (candidate ∷ candidates) fault =
    if fault_text candidate == fault_text fault then true else supports candidates fault

unfoldable pub supports_fault : Scenario → Fault → Bool
unfolding supports
supports_fault scenario fault = supports scenario.supported_faults fault
