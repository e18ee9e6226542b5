-- ===== src/Engine/Service/Creation.antt =====
-- A run is requested once, however often the request is sent.
use parity_lab.Prelude.{
  ℕ, String, Bool, true, false, Option, some, ◌==◌, string_eq, ◌≡◌, refl, sym, ap, ◌∙◌, ◌≢◌, arith,
  ◌⊎◌, inl, inr, Option-cases, Bool-cases, if◌then◌else◌, subst,
}
use parity_lab.Failure.{Failure, ok, err, Try-cases}
use parity_lab.Domain.{Time, Fault, Scenario, Run, fault_text, no_fault}
use parity_lab.Domain.Errors.{ApiError}
use parity_lab.Engine.Records.{Digest, RunBundle}
use parity_lab.Engine.Memory.{MemoryRepository}
use parity_lab.Engine.Memory.Runs.{
  create_run, create_run_for_project, replay_run, replay_run_for_project, next_run_id,
}
use parity_lab.Engine.Memory.Runs.Replay.{create_run-Settles, create_run_for_project-Settles}
use parity_lab.Engine.Scenarios.{seeded_scenarios, find_scenario, supports_fault}
use parity_lab.Engine.Service.{
  Answer, success, failure, replay_for, create_for, created, replay_error, allocate_run,
  replay_or_allocate, request_run, service_create_run,
}

success-injective : {A : Type 0} {a b : A} → success a ≡ success b → a ≡ b
success-injective h = grind arith

failure_not_success : {A : Type 0} {e : ApiError} {a : A} → failure e ≢ success a
failure_not_success h = grind arith

module _ (now : Time) (project_id : String) (key_hash request_hash : Digest) (bundle : RunBundle)
    (r : MemoryRepository) where
  create_for-shared :
      (project_id == "") ≡ true
      → create_for now project_id key_hash request_hash bundle r
        ≡ create_run now key_hash request_hash bundle r
  create_for-shared h = rw (h)

  create_for-owned :
      (project_id == "") ≡ false
      → create_for now project_id key_hash request_hash bundle r
        ≡ create_run_for_project now project_id key_hash request_hash bundle r
  create_for-owned h = rw (h)

  -- a run that was created, or replayed, is replayed from then on
  pub create_for-replay_for :
      {run : Run} {again : Bool}
      → (create_for now project_id key_hash request_hash bundle r).0 ≡ ok (run, again)
      → replay_for project_id key_hash request_hash
          (create_for now project_id key_hash request_hash bundle r).1
        ≡ ok (run, true)
  create_for-replay_for h = elim (Bool-cases (project_id == "")) [
    | inl shared ↦
        rw (shared)
          (create_run-Settles now key_hash request_hash bundle r
            (ap (λ x. x.0) (sym (create_for-shared shared)) ∙ h)).replays
    | inr owned ↦
        rw (owned)
          (create_run_for_project-Settles now project_id key_hash request_hash bundle r
            (ap (λ x. x.0) (sym (create_for-owned owned)) ∙ h)).replays
  ]

-- a replay that finds nothing is followed by a creation that succeeds
pub create_for-fresh :
    (now : Time) (project_id : String) (key_hash request_hash : Digest) (bundle : RunBundle)
    (r s : MemoryRepository) {run : Run}
    → replay_for project_id key_hash request_hash r ≡ ok (run, false)
    → s.idempotency ≡ r.idempotency
    → s.tenant_idempotency ≡ r.tenant_idempotency
    → (create_for now project_id key_hash request_hash bundle s).0 ≡ ok (bundle.run, false)
unfolding create_run create_run_for_project replay_run replay_run_for_project
create_for-fresh now project_id key_hash request_hash bundle r s h same tenant_same =
    ground (arith, h, same, tenant_same)

module _ (sha256 : String → Digest) (atoi : String → Option ℕ) (project_id : String)
    (scenario : Scenario) (fault : Fault) (key_hash request_hash : Digest) where
  replay_or_allocate-replayed :
      (now : Time) (r : MemoryRepository) {run : Run}
      → replay_for project_id key_hash request_hash r ≡ ok (run, true)
      → replay_or_allocate sha256 atoi now project_id scenario fault key_hash request_hash r
        ≡ (success (run, true), r)
  unfolding replay_or_allocate
  replay_or_allocate-replayed now r h = rw (h, replay_or_allocate)

  replay_or_allocate-refused :
      (now : Time) (r : MemoryRepository) {e : Failure}
      → replay_for project_id key_hash request_hash r ≡ err e
      → replay_or_allocate sha256 atoi now project_id scenario fault key_hash request_hash r
        ≡ (failure (replay_error e), r)
  unfolding replay_or_allocate
  replay_or_allocate-refused now r h = rw (h, replay_or_allocate)

  replay_or_allocate-fresh :
      (now : Time) (r : MemoryRepository) {run : Run}
      → replay_for project_id key_hash request_hash r ≡ ok (run, false)
      → replay_or_allocate sha256 atoi now project_id scenario fault key_hash request_hash r
        ≡ allocate_run sha256 atoi now project_id scenario fault key_hash request_hash r
  unfolding replay_or_allocate
  replay_or_allocate-fresh now r h = rw (h, replay_or_allocate)

  -- the answers to a request: refused and unchanged, or granted and replayed from then on
  abbrev IsAnswered : MemoryRepository → Answer (Run × Bool) × MemoryRepository → Type 0
  IsAnswered r out =
      ((e : ApiError) × (out ≡ (failure e, r)))
      ⊎ ((run : Run) × (again : Bool) × (out.0 ≡ success (run, again))
          × (replay_for project_id key_hash request_hash out.1 ≡ ok (run, true)))

  allocate_run-IsAnswered :
      (now : Time) (r : MemoryRepository) {none_found : Run}
      → replay_for project_id key_hash request_hash r ≡ ok (none_found, false)
      → IsAnswered r
          (allocate_run sha256 atoi now project_id scenario fault key_hash request_hash r)
  unfolding allocate_run next_run_id
  allocate_run-IsAnswered now r h =
      let granted = create_for-fresh now project_id key_hash request_hash _ r _ h refl refl in
      inr (
        _,
        false,
        ap created granted,
        create_for-replay_for now project_id key_hash request_hash _ _ granted,
      )

  replay_or_allocate-IsAnswered :
      (now : Time) (r : MemoryRepository)
      → IsAnswered r
          (replay_or_allocate sha256 atoi now project_id scenario fault key_hash request_hash r)
  replay_or_allocate-IsAnswered now r =
      elim (Try-cases (replay_for project_id key_hash request_hash r)) [
        | inr (e, refused) ↦ inl (replay_error e, replay_or_allocate-refused now r refused)
        | inl ((run, true), found) ↦
            subst (IsAnswered r) (sym (replay_or_allocate-replayed now r found))
              (inr (run, true, refl, found))
        | inl ((run, false), fresh) ↦
            subst (IsAnswered r) (sym (replay_or_allocate-fresh now r fresh))
              (allocate_run-IsAnswered now r fresh)
      ]

module _ (sha256 : String → Digest) (atoi : String → Option ℕ) (now later : Time)
    (project_id : String) where
  -- a request is refused and changes nothing, or it is granted, and granted alike when repeated
  abbrev pub IsOnce :
      (Time → MemoryRepository → Answer (Run × Bool) × MemoryRepository) → MemoryRepository → Type 0
  IsOnce request r =
      ((e : ApiError) × (request now r ≡ (failure e, r)))
      ⊎ ((run : Run) × (again : Bool) × ((request now r).0 ≡ success (run, again))
          × (request later (request now r).1 ≡ (success (run, true), (request now r).1)))

  replay_or_allocate-IsOnce :
      (scenario : Scenario) (fault : Fault) (key_hash request_hash : Digest) (r : MemoryRepository)
      → IsOnce
          (λ t. replay_or_allocate sha256 atoi t project_id scenario fault key_hash request_hash)
          r
  replay_or_allocate-IsOnce scenario fault key_hash request_hash r =
      elim (replay_or_allocate-IsAnswered sha256 atoi project_id scenario fault key_hash
        request_hash now r) [
          | inl refused ↦ inl refused
          | inr (run, again, granted, found) ↦ inr (
            run,
            again,
            granted,
            replay_or_allocate-replayed sha256 atoi project_id scenario fault key_hash request_hash
                later _ found,
          )
        ]

  request_run-IsOnce :
      (scenario : Scenario) (fault : Fault) (key body : String) (r : MemoryRepository)
      → IsOnce (λ t. request_run sha256 atoi t project_id scenario fault key body) r
  unfolding request_run
  request_run-IsOnce scenario fault key body r = elim (Bool-cases (supports_fault scenario fault)) [
    | inl supported ↦
        rw (supported, request_run)
          (replay_or_allocate-IsOnce scenario fault (sha256 key) (sha256 body) r)
    | inr unsupported ↦ rw (unsupported, request_run) (inl (_, refl))
  ]

  -- Every request for a run, of a project or of nobody, is refused without any change of the state, or
  -- is granted; and a granted request that is sent again, at any later time, gets the run that
  -- the first one got, marked as replayed, and changes nothing.
  pub service_create_run-IsOnce :
      (scenario_id : String) (fault : Fault) (key body : String) (r : MemoryRepository)
      → IsOnce (λ t. service_create_run sha256 atoi t project_id scenario_id fault key body) r
  unfolding service_create_run
  service_create_run-IsOnce scenario_id fault key body r = elim (Bool-cases (key == "")) [
    | inl missing ↦ rw (missing, service_create_run) (inl (_, refl))
    | inr present ↦ elim (Option-cases (find_scenario seeded_scenarios scenario_id)) [
      | inl unknown ↦ rw (present, service_create_run, unknown) (inl (_, refl))
      | inr (scenario, found) ↦
          subst (λ request. IsOnce request r)
            (λ i t s. sym (is_request t s scenario present found) i)
            (request_run-IsOnce scenario _ key body r)
    ]
  ]
    where
      is_request :
          (t : Time) (s : MemoryRepository) (scenario : Scenario)
          → (key == "") ≡ false
          → find_scenario seeded_scenarios scenario_id ≡ some scenario
          → service_create_run sha256 atoi t project_id scenario_id fault key body s
            ≡ request_run sha256 atoi t project_id scenario
                (if fault_text fault == "" then no_fault else fault)
                key
                body
                s
      is_request t s scenario present found = rw (present, service_create_run, found)
