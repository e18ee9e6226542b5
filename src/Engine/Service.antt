-- ===== src/Engine/Service.antt =====
-- service.go: `Service` over the in-memory repository: the creation of runs. `sha256` is the digest and `atoi`
-- the decimal reader of the standard library, `now` the clock of the outbox. The in-memory
-- repository serves projects and the public, and its reads never fail.
pub mod Creation
pub mod Ingress
pub mod Overview
pub mod Reads
use parity_lab.Prelude.{
  ℕ, ◌+◌, ◌*◌, String, Bool, true, false, List, [], ◌∷◌, Option, none, some, ◌==◌, string_eq,
  if◌then◌else◌, not,
}
use parity_lab.Prelude.Text.{◌<>◌}
use parity_lab.Failure.{
  Failure, Try, ok, err, idempotency_conflict, webhook_conflict, account_exists, permanent, message,
}
use parity_lab.Domain.{Time, minute, Fault, no_fault, fault_text, Scenario, Run}
use parity_lab.Domain.Errors.{ApiError, invalid, not_found, conflict, internal, forbidden, quoted}
use parity_lab.Engine.Records.{Digest, RunBundle}
use parity_lab.Engine.Memory.{MemoryRepository}
use parity_lab.Engine.Memory.Runs.{
  create_run, create_run_for_project, replay_run, replay_run_for_project, next_run_id,
}
use parity_lab.Engine.Scenarios.{seeded_scenarios, find_scenario, supports_fault}
use parity_lab.Engine.Bundle.{build_run_bundle}

-- a value, or the error of the API
pub data Answer (A : Type 0) : Type 0 where
  success : A → Answer A
  failure : ApiError → Answer A

-- 18 July 2026, 09:30 UTC
abbrev pub demo_epoch : Time
demo_epoch = 63919963800000000000

-- `numberFromRunID`; `strings.TrimPrefix` leaves a text without the prefix as it is
unfoldable pub number_from_run_id : (String → Option ℕ) → String → ℕ
number_from_run_id atoi id =
    let trimmed =
      if Prim.Native.String.slice id 0 4 == "run_"
      then Prim.Native.String.slice id 4 (Prim.Native.String.len id)
      else id in
    elim (atoi trimmed) [ none ↦ 0 | some value ↦ value ]

abbrev pub key_in_use : ApiError
key_in_use =
    conflict "idempotency_key_in_use"
      "This idempotency key was already used with different request parameters." "Idempotency-Key"

-- the answers to an error of the replay, and of the creation
unfoldable pub replay_error : Failure → ApiError
replay_error idempotency_conflict = key_in_use
replay_error webhook_conflict =
    internal "persistence_failed" "The idempotency record could not be read."
replay_error account_exists =
    internal "persistence_failed" "The idempotency record could not be read."
replay_error (permanent code) =
    internal "persistence_failed" "The idempotency record could not be read."
replay_error (message text) =
    internal "persistence_failed" "The idempotency record could not be read."

unfoldable pub creation_error : Failure → ApiError
creation_error idempotency_conflict = key_in_use
creation_error webhook_conflict =
    internal "persistence_failed" "The run could not be durably persisted."
creation_error account_exists =
    internal "persistence_failed" "The run could not be durably persisted."
creation_error (permanent code) =
    internal "persistence_failed" "The run could not be durably persisted."
creation_error (message text) =
    internal "persistence_failed" "The run could not be durably persisted."

-- `replayRun` and `createRun`, as the project selects them
abbrev pub replay_for : String → Digest → Digest → MemoryRepository → Try (Run × Bool)
replay_for project_id key_hash request_hash r =
    if project_id == ""
    then replay_run key_hash request_hash r
    else replay_run_for_project project_id key_hash request_hash r

abbrev pub create_for :
    Time
    → String
    → Digest
    → Digest
    → RunBundle
    → MemoryRepository
    → Try (Run × Bool) × MemoryRepository
create_for now project_id key_hash request_hash bundle r =
    if project_id == ""
    then create_run now key_hash request_hash bundle r
    else create_run_for_project now project_id key_hash request_hash bundle r

abbrev pub created : Try (Run × Bool) → Answer (Run × Bool)
created (ok (run, replayed)) = success (run, replayed)
created (err e) = failure (creation_error e)

module _ (sha256 : String → Digest) (atoi : String → Option ℕ) (now : Time) where
  -- the part of `createRun` that allocates, builds and stores
  unfoldable pub allocate_run :
      String
      → Scenario
      → Fault
      → Digest
      → Digest
      → MemoryRepository
      → Answer (Run × Bool) × MemoryRepository
  unfolding number_from_run_id creation_error
  allocate_run project_id scenario fault key_hash request_hash r =
      let (id, r1) = next_run_id r in
      let number = number_from_run_id atoi id in
      let bundle =
        build_run_bundle id number scenario fault (demo_epoch + number * (23 * minute)) in
      let (answer, r2) = create_for now project_id key_hash request_hash bundle r1 in
      (created answer, r2)

  -- the part of `createRun` that replays
  unfoldable pub replay_or_allocate :
      String
      → Scenario
      → Fault
      → Digest
      → Digest
      → MemoryRepository
      → Answer (Run × Bool) × MemoryRepository
  unfolding replay_error allocate_run
  replay_or_allocate project_id scenario fault key_hash request_hash r =
      elim (replay_for project_id key_hash request_hash r) [
        | err e ↦ (failure (replay_error e), r)
        | ok (run, found) ↦
            let fresh = allocate_run project_id scenario fault key_hash request_hash r in
            if found then (success (run, true), r) else fresh
      ]

  -- `createRun` with the scenario found, whose id is the one asked for, and the default fault filled in
  unfoldable pub request_run :
      String
      → Scenario
      → Fault
      → String
      → String
      → MemoryRepository
      → Answer (Run × Bool) × MemoryRepository
  unfolding replay_or_allocate
  request_run project_id scenario fault idempotency_key request_body r =
      let fresh =
        replay_or_allocate project_id scenario fault (sha256 idempotency_key) (sha256 request_body)
          r in
      if not (supports_fault scenario fault)
      then (
        failure (
            invalid "fault_not_supported"
              ("Scenario "
                <> quoted scenario.id
                <> " does not support fault "
                <> quoted (fault_text fault)
                <> ".")
              "fault"),
        r,
      )
      else fresh

  -- `createRun`
  unfoldable pub service_create_run :
      String
      → String
      → Fault
      → String
      → String
      → MemoryRepository
      → Answer (Run × Bool) × MemoryRepository
  unfolding request_run
  service_create_run project_id scenario_id fault idempotency_key request_body r =
      if idempotency_key == ""
      then (
        failure (
            invalid "idempotency_key_missing"
              "An Idempotency-Key header is required for this request." "Idempotency-Key"),
        r,
      )
      else (elim (find_scenario seeded_scenarios scenario_id) [
        | none ↦ (failure (not_found "scenario" scenario_id), r)
        | some scenario ↦
            request_run project_id scenario (if fault_text fault == "" then no_fault else fault)
              idempotency_key request_body r
      ])

  -- `CreateRunForProject`
  unfoldable pub service_create_run_for_project :
      String
      → String
      → Fault
      → String
      → String
      → MemoryRepository
      → Answer (Run × Bool) × MemoryRepository
  unfolding service_create_run
  service_create_run_for_project project_id scenario_id fault idempotency_key request_body r =
      if project_id == ""
      then (failure (forbidden "project_required" "A project session is required."), r)
      else service_create_run project_id scenario_id fault idempotency_key request_body r
