-- ===== src/Tests/Runs.antt =====
-- Runs, pages of events, evidence, connections, and the service.
use parity_lab.Prelude.{
  eq_iff, ℕ, String, true, false, [], ◌∷◌, Option, none, string_eq, ◌≡◌, refl, arith, ◌≢◌, All,
  take, keep, some, inr,
}
use parity_lab.Prelude.Table.{lookup, insert, get_or, has}
use parity_lab.Failure.{ok}
use parity_lab.Domain.{duplicate, tamper, Event, Scenario, no_fault}
use parity_lab.Engine.Records.{
  Digest, VerificationEvidence, has_assertion, StripeConnection, build_webhook_run_event,
}
use parity_lab.Engine.Bundle.{build_run_bundle}
use parity_lab.Engine.Bundle.Coherence.{IsCoherent, build_run_bundle-IsCoherent}
use parity_lab.Engine.Memory.{MemoryRepository, new_memory_repository, enqueue, put_outbox}
use parity_lab.Engine.Memory.Runs.{
  create_run, create_run_for_project, replay_run_for_project, run_for_project, events_for_project,
  report_for_project, public_run, public_events, public_report,
}
use parity_lab.Engine.Memory.Runs.Replay.{Settles, create_run_for_project-Settles}
use parity_lab.Engine.Memory.Runs.Tenancy.{granted, reads_exclude}
use parity_lab.Engine.Memory.Runs.Isolation.{IsClosed, Unchanged, create_run_for_project-Unchanged}
use parity_lab.Engine.Memory.Runs.Closed.{
  new-IsClosed, new-IsNamed, create_run_for_project-IsClosed,
}
use parity_lab.Engine.Memory.Runs.{list_runs_for_project, list_public_runs}
use parity_lab.Engine.Memory.Runs.Listing.{without}
use parity_lab.Engine.Memory.Stream.{
  events_after_locked, page_limit, events_after_for_project, public_events_after,
}
use parity_lab.Engine.Memory.Stream.Pages.{IsAscending, is_after, highest, events_after_locked_lem}
use parity_lab.Engine.Memory.Evidence.{record_verification}
use parity_lab.Engine.Memory.Connections.{
  save_stripe_connection_for_project, list_stripe_connections_for_project, zero_connection,
}
use parity_lab.Engine.Memory.Connections.Ownership.{
  HasNoSecret, list_stripe_connections_for_project-HasNoSecret,
}
use parity_lab.Engine.Service.{service_create_run}
use parity_lab.Engine.Service.Creation.{IsOnce, service_create_run-IsOnce}
use parity_lab.Engine.Service.Overview.{seeds, new_service_with_repository}
use parity_lab.Engine.Service.Overview.Starts.{
  IsDistinct, IsSeedable, IsStarted, new_service_with_repository-IsStarted,
}
use parity_lab.Tests.Data.{test_bundle, test_run, test_sha256}

abbrev key : Digest
key = 1 ∷ 2 ∷ []

abbrev request : Digest
request = 3 ∷ []

abbrev created : MemoryRepository
created = (create_run 0 key request test_bundle new_memory_repository).1

abbrev pub created_for_p : MemoryRepository
created_for_p = (create_run_for_project 0 "p" key request test_bundle new_memory_repository).1

create_run_for_project_ok :
    (create_run_for_project 0 "p" key request test_bundle new_memory_repository).0
    ≡ ok (test_run, false)
unfolding create_run_for_project new_memory_repository lookup
create_run_for_project_ok = refl

create_run_for_project-Settles_example :
    Settles
      (λ t. create_run_for_project t "p" key)
      (replay_run_for_project "p" key)
      test_run
      request
      created_for_p
create_run_for_project-Settles_example =
    create_run_for_project-Settles 0 "p" key request test_bundle new_memory_repository
      create_run_for_project_ok

create_run_for_project-IsClosed_example : IsClosed created_for_p
create_run_for_project-IsClosed_example =
    create_run_for_project-IsClosed 0 "p" key request test_bundle new_memory_repository new-IsClosed

id_unused : has test_run.id new_memory_repository.runs ≡ false
unfolding new_memory_repository lookup
id_unused = refl

create_run_for_project-Unchanged_example :
    Unchanged 0 "p" key request test_bundle new_memory_repository id_unused created_for_p
create_run_for_project-Unchanged_example =
    create_run_for_project-Unchanged 0 "p" key request test_bundle new_memory_repository id_unused
      new-IsClosed new-IsNamed

p_not_q : ◌≢◌ {A = String} "p" "q"
p_not_q = ground (arith, eq_iff "p" "q")

pub p_named : ◌≢◌ {A = String} "p" ""
p_named = ground (arith, eq_iff "p" "")

pub p_reads : granted (run_for_project "p" "run_000004" created_for_p) ≢ none
unfolding create_run_for_project new_memory_repository lookup insert run_for_project enqueue
    put_outbox
p_reads = ground arith

reads_exclude_example :
    (granted (run_for_project "q" "run_000004" created_for_p) ≡ none)
    × (granted (events_for_project "q" "run_000004" created_for_p) ≡ none)
    × (granted (report_for_project "q" "run_000004" created_for_p) ≡ none)
    × (granted (public_run "run_000004" created_for_p) ≡ none)
    × (granted (public_events "run_000004" created_for_p) ≡ none)
    × (granted (public_report "run_000004" created_for_p) ≡ none)
    × (granted (events_after_for_project "q" "run_000004" 0 10 created_for_p) ≡ none)
    × (granted (public_events_after "run_000004" 0 10 created_for_p) ≡ none)
    × (list_runs_for_project "q" created_for_p
        ≡ list_runs_for_project "q" (without "run_000004" created_for_p))
    × (list_public_runs created_for_p ≡ list_public_runs (without "run_000004" created_for_p))
reads_exclude_example =
    reads_exclude "p" "q" "run_000004" 0 10 created_for_p p_not_q p_named p_reads

abbrev third_scenario : Scenario
third_scenario = record {
  id = "endpoint-recovery";
  name = "Endpoint outage and recovery";
  description = "";
  category = "resilience";
  duration_ms = 7200;
  supported_faults = no_fault ∷ [];
  assertions = [];
  difficulty = "advanced";
  recommended = false;
  estimated_event_count = 10;
}

build_run_bundle-IsCoherent_example :
    IsCoherent (build_run_bundle "run_000007" 7 third_scenario tamper 100)
build_run_bundle-IsCoherent_example =
    build_run_bundle-IsCoherent "run_000007" 7 third_scenario tamper 100

-- two events of the run
abbrev pub event_at : ℕ → Event
event_at n =
    build_webhook_run_event test_sha256 0
      (record {
        event_id = "evt";
        event_type = "payment_intent.created";
        endpoint_token_sha = [];
        body_sha = [];
        stripe_created_at = 0;
        stripe_object_id = "pi_1";
        object_status = "";
        correlation_id = "";
      })
      "run_000004" n

abbrev pub two_events : MemoryRepository
two_events = record new_memory_repository {
  events = ("run_000004", event_at 1 ∷ event_at 4 ∷ []) ∷ [];
}

pub two_events-IsAscending : IsAscending 0 (get_or "run_000004" [] two_events.events)
unfolding lookup build_webhook_run_event
two_events-IsAscending = (omega arith, (omega arith, tt))

events_after_locked_lem_example :
    ((events_after_locked test_run 1 10 two_events).events
      ≡ take (page_limit 10) (keep (is_after 1) (get_or "run_000004" [] two_events.events)))
    × ((events_after_locked test_run 1 10 two_events).high_water
        ≡ highest 0 (get_or "run_000004" [] two_events.events))
events_after_locked_lem_example =
    events_after_locked_lem test_run 1 10 two_events two_events-IsAscending

abbrev evidence : VerificationEvidence
evidence = record {
  run_id = "run_000004";
  assertion = record {
    id = "assert_one";
    name = "One";
    passed = true;
    expected = "";
    observed = "";
    evidence = "";
  };
  checkpoint = "";
}

recorded : (record_verification evidence created).0 ≡ ok tt
unfolding record_verification create_run new_memory_repository lookup insert has_assertion enqueue
    put_outbox
recorded = refl

abbrev connection : StripeConnection
connection = record zero_connection {
  id = "conn_1";
  stripe_account_id = "acct_1";
  secret_ciphertext = 7 ∷ [];
}

abbrev connected : StripeConnection × MemoryRepository
connected = save_stripe_connection_for_project "p" connection new_memory_repository

list_stripe_connections_for_project-HasNoSecret_example :
    All HasNoSecret (list_stripe_connections_for_project "p" connected.1)
list_stripe_connections_for_project-HasNoSecret_example =
    list_stripe_connections_for_project-HasNoSecret "p" connected.1

abbrev pub no_number : String → Option ℕ
no_number text = none

service_create_run-IsOnce_example :
    IsOnce test_sha256 no_number 0 1 "p"
      (λ t.
        service_create_run test_sha256 no_number t "p" "checkout-duplicate" duplicate "key" "body")
      new_memory_repository
service_create_run-IsOnce_example =
    service_create_run-IsOnce test_sha256 no_number 0 1 "p" "checkout-duplicate" duplicate "key"
      "body" new_memory_repository

seeds-IsDistinct : IsDistinct test_sha256 seeds
seeds-IsDistinct = ((ground arith, (ground arith, tt)), ((ground arith, tt), (tt, tt)))

new-IsSeedable : IsSeedable test_sha256 0 seeds new_memory_repository
unfolding new_memory_repository lookup
new-IsSeedable = (inr refl, (inr refl, (inr refl, tt)))

new_service_with_repository-IsStarted_example :
    IsStarted test_sha256
      (λ s. none)
      0
      new_memory_repository
      (new_service_with_repository test_sha256 (λ s. none) 0 (some new_memory_repository))
new_service_with_repository-IsStarted_example =
    new_service_with_repository-IsStarted test_sha256 (λ s. none) 0 new_memory_repository
      seeds-IsDistinct new-IsSeedable
