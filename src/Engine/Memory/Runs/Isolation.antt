-- ===== src/Engine/Memory/Runs/Isolation.antt =====
-- What a creation for one project leaves alone of what the others and the public read.
use parity_lab.Prelude.{
  ℕ, ◌==◌, not, refl, sym, Bool-cases, String, Bool, true, false, Option, none, some, string_eq,
  bytes_eq, ◌≡◌, ap, ◌≢◌, arith, eq_iff, inl, inr, ◌⊎◌, ◌∙◌, Option-cases, All, length, ◌<◌,
}
use parity_lab.Prelude.Table.{
  lookup, insert, has, lookup-insert, lookup-insert_ne, lookup-insert_self,
}
use parity_lab.Domain.{Time, Run}
use parity_lab.Engine.Records.{Digest, RunBundle}
use parity_lab.Engine.Memory.{MemoryRepository, IdempotencyRecord, enqueue, put_outbox}
use parity_lab.Engine.Memory.Runs.{
  create_run_for_project, replay_run_for_project, record_of, tenant_idempotency_key,
  run_for_project, events_for_project, report_for_project, public_run, public_events, public_report,
  list_runs_for_project, list_public_runs, newest_first,
}
use parity_lab.Engine.Memory.Runs.Keys.{tenant_idempotency_key-injective}
use parity_lab.Engine.Memory.Runs.Listing.{newest_first-insert, events_after_locked-same}
use parity_lab.Engine.Memory.Stream.{
  events_after_for_project, public_events_after, events_after_locked,
}
use parity_lab.Engine.Memory.Runs.Tenancy.{granted}

-- Every stored request of a project names a stored run.
pub record IsClosed (r : MemoryRepository) : Type 0 where
  pub replayable :
      (key : String) (previous : IdempotencyRecord)
      → lookup key r.tenant_idempotency ≡ some previous
      → has previous.run_id r.runs ≡ true

-- Every run is stored under its id.
pub record IsNamed (r : MemoryRepository) : Type 0 where
  pub named : (id : String) (run : Run) → lookup id r.runs ≡ some run → run.id ≡ id

-- the parts of a creation that a read can see
module _ (now : Time) (p : String) (key request_hash : Digest) (bundle : RunBundle)
    (r : MemoryRepository) (fresh : has bundle.run.id r.runs ≡ false) where
  abbrev after : MemoryRepository
  after = (create_run_for_project now p key request_hash bundle r).1

  -- What the other projects and the public read by id and in lists, and how the other projects' requests are answered.
  pub record Unchanged (r' : MemoryRepository) : Type 0 where
    pub run :
        (q id : String)
        → q ≢ p
        → granted (run_for_project q id r') ≡ granted (run_for_project q id r)
    pub events :
        (q id : String)
        → q ≢ p
        → granted (events_for_project q id r') ≡ granted (events_for_project q id r)
    pub report :
        (q id : String)
        → q ≢ p
        → granted (report_for_project q id r') ≡ granted (report_for_project q id r)
    pub for_public : (id : String) → granted (public_run id r') ≡ granted (public_run id r)
    pub public_events : (id : String) → granted (public_events id r') ≡ granted (public_events id r)
    pub public_report : (id : String) → granted (public_report id r') ≡ granted (public_report id r)
    pub page :
        (q id : String) (n limit : ℕ)
        → q ≢ p
        → granted (events_after_for_project q id n limit r')
          ≡ granted (events_after_for_project q id n limit r)
    pub public_page :
        (id : String) (n limit : ℕ)
        → granted (public_events_after id n limit r') ≡ granted (public_events_after id n limit r)
    pub listed : (q : String) → q ≢ p → list_runs_for_project q r' ≡ list_runs_for_project q r
    pub public_list : list_public_runs r' ≡ list_public_runs r
    pub answers :
        (q : String) (k h : Digest)
        → q ≢ p
        → All (λ b. b < 256) key
        → All (λ b. b < 256) k
        → length k ≡ length key
        → replay_run_for_project q k h r' ≡ replay_run_for_project q k h r

  create-run_for_project :
      (q id : String)
      → q ≢ p
      → granted (run_for_project q id after) ≡ granted (run_for_project q id r)
  unfolding create_run_for_project enqueue put_outbox run_for_project
  create-run_for_project q id ne = ground (
    arith,
    eq_iff bundle.run.id id,
    eq_iff p q,
    lookup-insert bundle.run.id id bundle.run r.runs,
    lookup-insert bundle.run.id id p r.project_by_run,
  )

  create-events_for_project :
      (q id : String)
      → q ≢ p
      → granted (events_for_project q id after) ≡ granted (events_for_project q id r)
  unfolding create_run_for_project enqueue put_outbox events_for_project
  create-events_for_project q id ne = ground (
    arith,
    eq_iff bundle.run.id id,
    eq_iff p q,
    lookup-insert bundle.run.id id bundle.run r.runs,
    lookup-insert bundle.run.id id bundle.events r.events,
    lookup-insert bundle.run.id id p r.project_by_run,
  )

  create-report_for_project :
      (q id : String)
      → q ≢ p
      → granted (report_for_project q id after) ≡ granted (report_for_project q id r)
  unfolding create_run_for_project enqueue put_outbox report_for_project
  create-report_for_project q id ne = ground (
    arith,
    eq_iff bundle.run.id id,
    eq_iff p q,
    lookup-insert bundle.run.id id bundle.run r.runs,
    lookup-insert bundle.run.id id bundle.report r.reports,
    lookup-insert bundle.run.id id p r.project_by_run,
  )

  create-public_run : (id : String) → granted (public_run id after) ≡ granted (public_run id r)
  unfolding create_run_for_project enqueue put_outbox public_run
  create-public_run id = ground (
    arith,
    eq_iff bundle.run.id id,
    lookup-insert bundle.run.id id bundle.run r.runs,
    lookup-insert bundle.run.id id p r.project_by_run,
  )

  create-public_events :
      (id : String) → granted (public_events id after) ≡ granted (public_events id r)
  unfolding create_run_for_project enqueue put_outbox public_events
  create-public_events id = ground (
    arith,
    eq_iff bundle.run.id id,
    lookup-insert bundle.run.id id bundle.run r.runs,
    lookup-insert bundle.run.id id bundle.events r.events,
    lookup-insert bundle.run.id id p r.project_by_run,
  )

  create-public_report :
      (id : String) → granted (public_report id after) ≡ granted (public_report id r)
  unfolding create_run_for_project enqueue put_outbox public_report
  create-public_report id = ground (
    arith,
    eq_iff bundle.run.id id,
    lookup-insert bundle.run.id id bundle.run r.runs,
    lookup-insert bundle.run.id id bundle.report r.reports,
    lookup-insert bundle.run.id id p r.project_by_run,
  )

  -- the page of another run's events
  create-page :
      IsNamed r
      → (id : String) (n limit : ℕ) (run : Run) → (bundle.run.id == id) ≡ false
      → lookup id r.runs ≡ some run
      → events_after_locked run n limit after ≡ events_after_locked run n limit r
  unfolding create_run_for_project enqueue put_outbox
  create-page names id n limit run other found = events_after_locked-same run n limit after r (
      ground (
        arith,
        other,
        names.named id run found,
        lookup-insert bundle.run.id run.id bundle.events r.events,
      ))

  create-events_after_for_project :
      IsNamed r
      → (q id : String) (n limit : ℕ) → q ≢ p
      → granted (events_after_for_project q id n limit after)
        ≡ granted (events_after_for_project q id n limit r)
  unfolding create_run_for_project enqueue put_outbox events_after_for_project
  create-events_after_for_project names q id n limit ne = elim (Bool-cases (bundle.run.id == id)) [
    | inl same ↦ ground (
      arith,
      same,
      eq_iff bundle.run.id id,
      eq_iff p q,
      lookup-insert bundle.run.id id p r.project_by_run,
    )
    | inr other ↦ elim (Option-cases (lookup id r.runs)) [
      | inl missing ↦
          ground (arith, other, missing, lookup-insert bundle.run.id id bundle.run r.runs)
      | inr (run, found) ↦ ground (
        arith,
        other,
        found,
        lookup-insert bundle.run.id id bundle.run r.runs,
        lookup-insert bundle.run.id id p r.project_by_run,
        create-page names id n limit run other found,
      )
    ]
  ]

  create-public_events_after :
      IsNamed r
      → (id : String) (n limit : ℕ)
      → granted (public_events_after id n limit after) ≡ granted (public_events_after id n limit r)
  unfolding create_run_for_project enqueue put_outbox public_events_after
  create-public_events_after names id n limit = elim (Bool-cases (bundle.run.id == id)) [
    | inl same ↦
        ground
          (arith, same, eq_iff bundle.run.id id, lookup-insert bundle.run.id id p r.project_by_run)
    | inr other ↦ elim (Option-cases (lookup id r.runs)) [
      | inl missing ↦
          ground (arith, other, missing, lookup-insert bundle.run.id id bundle.run r.runs)
      | inr (run, found) ↦ ground (
        arith,
        other,
        found,
        lookup-insert bundle.run.id id bundle.run r.runs,
        lookup-insert bundle.run.id id p r.project_by_run,
        create-page names id n limit run other found,
      )
    ]
  ]

  -- what a creation does to the stored runs
  create-stores :
      ((after.runs ≡ r.runs) × (after.project_by_run ≡ r.project_by_run))
      ⊎ ((after.runs ≡ insert bundle.run.id bundle.run r.runs)
          × (after.project_by_run ≡ insert bundle.run.id p r.project_by_run))
  unfolding create_run_for_project enqueue put_outbox
  create-stores = elim (Option-cases (lookup (tenant_idempotency_key p key) r.tenant_idempotency)) [
    | inr (previous, seen) ↦ inl (ground (arith, seen), ground (arith, seen))
    | inl unseen ↦ inr (ground (arith, unseen), ground (arith, unseen))
  ]

  -- a list of other runs, as the projects of the runs select it
  create-list :
      (wanted : Option String → Bool)
      → wanted (some p) ≡ false
      → newest_first (λ id. wanted (lookup id after.project_by_run)) after.runs
        ≡ newest_first (λ id. wanted (lookup id r.project_by_run)) r.runs
  create-list wanted unwanted = elim create-stores [
    | inl (runs, projects) ↦ λ i. newest_first (λ id. wanted (lookup id (projects i))) (runs i)
    | inr (runs, projects) ↦
        (λ i. newest_first (λ id. wanted (lookup id (projects i))) (runs i))
        ∙ newest_first-insert (λ id. wanted (lookup id (insert bundle.run.id p r.project_by_run)))
            (λ id. wanted (lookup id r.project_by_run)) bundle.run.id bundle.run r.runs
            (record {
              unwanted = ap wanted (lookup-insert_self bundle.run.id p r.project_by_run) ∙ unwanted;
              others = λ other differs.
                  ap wanted (
                    lookup-insert_ne bundle.run.id other p r.project_by_run (λ e. differs (sym e)));
            })
            fresh
  ]

  create-list_runs_for_project :
      (q : String) → q ≢ p → list_runs_for_project q after ≡ list_runs_for_project q r
  unfolding list_runs_for_project
  create-list_runs_for_project q ne =
      create-list (λ o. (elim o [ none ↦ "" | some project ↦ project ]) == q)
        (ground (arith, eq_iff p q))

  create-list_public_runs : list_public_runs after ≡ list_public_runs r
  unfolding list_public_runs
  create-list_public_runs =
      create-list (λ o. not (elim o [ none ↦ false | some project ↦ true ])) refl

  create-answers :
      IsClosed r
      → (q : String) (k h : Digest) → q ≢ p
      → All (λ b. b < 256) key
      → All (λ b. b < 256) k
      → length k ≡ length key
      → replay_run_for_project q k h after ≡ replay_run_for_project q k h r
  unfolding create_run_for_project enqueue put_outbox replay_run_for_project
  create-answers c q k h ne hb hb' len =
      elim (Option-cases (lookup (tenant_idempotency_key q k) r.tenant_idempotency)) [
        | inl unseen ↦ ground (arith, unseen, stays, differ)
        | inr (previous, seen) ↦ ground (
          arith,
          seen,
          stays,
          differ,
          c.replayable _ previous seen,
          lookup-insert bundle.run.id previous.run_id bundle.run r.runs,
          eq_iff bundle.run.id previous.run_id,
        )
      ]
    where
      differ : tenant_idempotency_key q k ≢ tenant_idempotency_key p key
      differ e = ne (tenant_idempotency_key-injective q p k key hb' hb len e).0

      stays :
          lookup (tenant_idempotency_key q k) (
            insert
              (tenant_idempotency_key p key)
              (record_of request_hash bundle)
              r.tenant_idempotency)
          ≡ lookup (tenant_idempotency_key q k) r.tenant_idempotency
      stays =
          lookup-insert_ne (tenant_idempotency_key p key) (tenant_idempotency_key q k)
            (record_of request_hash bundle) r.tenant_idempotency differ

  -- A creation for one project under a new run id changes nothing that another project or the public read
  -- of a run by its id, of its events, a page of them or its report, nor their lists of runs, nor the
  -- answers to other projects' requests (whose key hashes have the same length). The conditions are
  -- that every stored request of a project names a stored run, and that runs are stored under their ids.
  -- The overview, which lists the runs of all projects, is not among these reads.
  pub create_run_for_project-Unchanged : IsClosed r → IsNamed r → Unchanged after
  create_run_for_project-Unchanged c names = record {
    run = create-run_for_project;
    events = create-events_for_project;
    report = create-report_for_project;
    for_public = create-public_run;
    public_events = create-public_events;
    public_report = create-public_report;
    page = create-events_after_for_project names;
    public_page = create-public_events_after names;
    listed = create-list_runs_for_project;
    public_list = create-list_public_runs;
    answers = create-answers c;
  }
