-- ===== src/Engine/Service/Overview/Starts.antt =====
-- service.go: a service that starts over a repository, and starts over it again.
use parity_lab.Prelude.{
  ℕ, suc, ◌+◌, String, Bool, true, false, List, [], ◌∷◌, Option, none, some, ◌≡◌, refl, ap, ◌∙◌,
  ◌≢◌, ◌⊎◌, arith, inl, inr, Bool-cases, Option-cases, string_eq, bytes_eq, eq_iff,
}
use parity_lab.Prelude.Text.{◌<>◌}
use parity_lab.Prelude.Table.{lookup, insert, has, lookup-insert, lookup-insert_ne, has-insert}
use parity_lab.Failure.{Try, ok}
use parity_lab.Domain.{Time, Fault, Run, fault_text}
use parity_lab.Engine.Records.{Digest}
use parity_lab.Engine.Memory.{MemoryRepository, IdempotencyRecord, enqueue, put_outbox}
use parity_lab.Engine.Memory.Runs.{run_id, run_of, create_run, record_of}
use parity_lab.Engine.Bundle.{build_run_bundle}
use parity_lab.Engine.Service.Overview.{
  seeds, seed_bundle, create_seed, seed_from, ensure_seed_runs, new_service_with_repository,
}

module _ (sha256 : String → Digest) where
  -- the key of a seed
  abbrev pub seed_key : String → Digest
  seed_key scenario = sha256 ("paritylab:seed:" <> scenario)

  abbrev pub Differs : String → List (String × Fault) → Type 0
  Differs scenario [] = Unit
  Differs scenario ((other, fault) ∷ rest) =
      (seed_key other ≢ seed_key scenario) × Differs scenario rest

  -- seeds whose keys are different
  abbrev pub IsDistinct : List (String × Fault) → Type 0
  IsDistinct [] = Unit
  IsDistinct ((scenario, fault) ∷ rest) = Differs scenario rest × IsDistinct rest

  -- every seed, from the `index`-th, has its run or an unused key
  abbrev pub IsSeedable : ℕ → List (String × Fault) → MemoryRepository → Type 0
  IsSeedable index [] r = Unit
  IsSeedable index ((scenario, fault) ∷ rest) r =
      ((has (run_id (index + 1)) r.runs ≡ true) ⊎ (lookup (seed_key scenario) r.idempotency ≡ none))
      × IsSeedable (suc index) rest r

-- every seed, from the `index`-th, has its run
abbrev pub IsSeeded : ℕ → List (String × Fault) → MemoryRepository → Type 0
IsSeeded index [] r = Unit
IsSeeded index ((scenario, fault) ∷ rest) r =
    (has (run_id (index + 1)) r.runs ≡ true) × IsSeeded (suc index) rest r

-- every run is as it was
pub record IsKept (r after : MemoryRepository) : Type 0 where
  pub same :
      (id : String) (run : Run) → lookup id r.runs ≡ some run → lookup id after.runs ≡ some run

module _ (sha256 : String → Digest) (atoi : String → Option ℕ) (now : Time) where
  -- a seed that was created
  record IsCreated (index : ℕ) (scenario : String) (r : MemoryRepository)
      (out : Try (Run × Bool) × MemoryRepository) : Type 0 where
    run : Run
    entry : IdempotencyRecord
    answered : out.0 ≡ ok (run, false)
    runs : out.1.runs ≡ insert (run_id (index + 1)) run r.runs
    keys : out.1.idempotency ≡ insert (seed_key sha256 scenario) entry r.idempotency

  create_seed-IsCreated :
      (index : ℕ) (scenario : String) (fault : Fault) (r : MemoryRepository)
      → lookup (seed_key sha256 scenario) r.idempotency ≡ none
      → IsCreated index scenario r (create_seed sha256 atoi now index scenario fault r)
  unfolding create_seed create_run enqueue put_outbox build_run_bundle
  create_seed-IsCreated index scenario fault r unused =
      let bundle = seed_bundle atoi index scenario fault in
      record {
        run = bundle.run;
        entry = record_of (sha256 (scenario <> ":" <> fault_text fault)) bundle;
        answered = rw (unused, create_run) refl;
        runs = rw (unused, create_run) refl;
        keys = rw (unused, create_run) refl;
      }

  -- a run that was added where there was none
  insert-IsKept :
      (id : String) (run : Run) (r after : MemoryRepository)
      → has id r.runs ≡ false
      → after.runs ≡ insert id run r.runs
      → IsKept r after
  insert-IsKept id run r after missing is = record {
    same = λ j other found.
        ground (arith, is, missing, found, lookup-insert id j run r.runs, eq_iff id j);
  }

  has-IsKept :
      (id : String) (r after : MemoryRepository)
      → IsKept r after
      → has id r.runs ≡ true
      → has id after.runs ≡ true
  has-IsKept id r after k h = elim (Option-cases (lookup id r.runs)) [
    | inl missing ↦ ground (arith, missing, h)
    | inr (run, found) ↦ ground (arith, k.same id run found)
  ]

  created-IsSeedable :
      (scenario : String) (entry : IdempotencyRecord) (r after : MemoryRepository)
      → IsKept r after
      → after.idempotency ≡ insert (seed_key sha256 scenario) entry r.idempotency
      → (index : ℕ) (rest : List (String × Fault)) → Differs sha256 scenario rest
      → IsSeedable sha256 index rest r
      → IsSeedable sha256 index rest after
  created-IsSeedable scenario entry r after k is index [] differs h = tt
  created-IsSeedable scenario entry r after k is index ((other, fault) ∷ rest) differs h = (
    elim h.0 [
      | inl there ↦ inl (has-IsKept (run_id (index + 1)) r after k there)
      | inr unused ↦ inr (
          ap (lookup (seed_key sha256 other)) is
          ∙ lookup-insert_ne (seed_key sha256 scenario) (seed_key sha256 other) entry r.idempotency
              differs.0
          ∙ unused)
    ],
    created-IsSeedable scenario entry r after k is (suc index) rest differs.1 h.1,
  )

  -- what a loop over seeds leaves
  record IsSown (index : ℕ) (list : List (String × Fault)) (r : MemoryRepository)
      (out : Try (Unit {0}) × MemoryRepository) : Type 0 where
    answered : out.0 ≡ ok tt
    seeded : IsSeeded index list out.1
    kept : IsKept r out.1

  seed_from-IsSown :
      (index : ℕ) (list : List (String × Fault)) (r : MemoryRepository)
      → IsDistinct sha256 list
      → IsSeedable sha256 index list r
      → IsSown index list r (seed_from sha256 atoi now index list r)
  unfolding seed_from run_of
  seed_from-IsSown index [] r distinct h = record {
    answered = refl;
    seeded = tt;
    kept = record { same = λ id run found. found };
  }
  seed_from-IsSown index ((scenario, fault) ∷ rest) r distinct h =
      let id = run_id (index + 1) in
      elim (Bool-cases (has id r.runs)) [
        | inl there ↦
            let s = seed_from-IsSown (suc index) rest r distinct.1 h.1 in
            rw (there, seed_from, run_of)
              (record {
                answered = s.answered;
                seeded = (
                  has-IsKept id r (seed_from sha256 atoi now (suc index) rest r).1 s.kept there,
                  s.seeded,
                );
                kept = s.kept;
              })
        | inr missing ↦
            let unused : lookup (seed_key sha256 scenario) r.idempotency ≡ none = elim h.0 [
              | inl there ↦ absurd (ground (arith, there, missing))
              | inr unused ↦ unused
            ] in
            let c = create_seed-IsCreated index scenario fault r unused in
            let after = (create_seed sha256 atoi now index scenario fault r).1 in
            let out = seed_from sha256 atoi now (suc index) rest after in
            let k = insert-IsKept id c.run r after missing c.runs in
            let s = seed_from-IsSown (suc index) rest after distinct.1 (
              created-IsSeedable scenario c.entry r after k c.keys (suc index) rest distinct.0
                h.1) in
            let stored : has id after.runs ≡ true =
              ground (arith, c.runs, has-insert id id c.run r.runs, eq_iff id id) in
            rw (missing, seed_from, run_of, c.answered)
              (record {
                answered = s.answered;
                seeded = (has-IsKept id after out.1 s.kept stored, s.seeded);
                kept = record { same = λ j run found. s.kept.same j run (k.same j run found) };
              })
      ]

  seed_from-again :
      (index : ℕ) (list : List (String × Fault)) (r : MemoryRepository)
      → IsSeeded index list r
      → seed_from sha256 atoi now index list r ≡ (ok tt, r)
  unfolding seed_from run_of
  seed_from-again index [] r h = refl
  seed_from-again index ((scenario, fault) ∷ rest) r h =
      rw (h.0, seed_from, run_of) (seed_from-again (suc index) rest r h.1)

  -- what a service that starts over a repository comes to, and what one comes to that starts over it later
  pub record IsStarted (r : MemoryRepository) (out : Try (Unit {0}) × Option MemoryRepository)
      : Type 0 where
    pub after : MemoryRepository
    pub answered : out ≡ (ok tt, some after)
    pub seeded : IsSeeded 0 seeds after
    pub kept : IsKept r after
    pub again :
        (later : Time)
        → new_service_with_repository sha256 atoi later (some after) ≡ (ok tt, some after)

-- A service that starts over a repository starts without an error, keeps every stored run as it was, and
-- leaves each of its three seeds with its run; a service that starts over that repository at any later
-- time changes nothing. The conditions are that the keys of the seeds have different digests, and
-- that a seed without its run has a key that no request used.
pub new_service_with_repository-IsStarted :
    (sha256 : String → Digest) (atoi : String → Option ℕ) (now : Time) (r : MemoryRepository)
    → IsDistinct sha256 seeds
    → IsSeedable sha256 0 seeds r
    → IsStarted sha256 atoi now r (new_service_with_repository sha256 atoi now (some r))
unfolding new_service_with_repository ensure_seed_runs
new_service_with_repository-IsStarted sha256 atoi now r distinct h =
    let s = seed_from-IsSown sha256 atoi now 0 seeds r distinct h in
    let after = (seed_from sha256 atoi now 0 seeds r).1 in
    record {
      after = after;
      answered = ap (λ answer. (answer, some after)) s.answered;
      seeded = s.seeded;
      kept = s.kept;
      again = λ later.
          ap (λ out. (out.0, some out.1))
            (seed_from-again sha256 atoi later 0 seeds after s.seeded);
    }
