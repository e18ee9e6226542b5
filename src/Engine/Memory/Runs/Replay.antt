-- ===== src/Engine/Memory/Runs/Replay.antt =====
-- Idempotent creation: a key creates once, and every later request with it is answered alike.
use parity_lab.Prelude.{
  String, Bool, true, Option, some, string_eq, bytes_eq, bytes_beq_iff, ◌≡◌, refl, ◌≢◌, arith, inl,
  inr, Option-cases,
}
use parity_lab.Prelude.Table.{lookup, get_or, lookup-insert_self}
use parity_lab.Failure.{Try, ok, err, idempotency_conflict}
use parity_lab.Domain.{Time, Run, zero_run}
use parity_lab.Engine.Records.{Digest, RunBundle}
use parity_lab.Engine.Memory.{MemoryRepository, IdempotencyRecord, enqueue, put_outbox}
use parity_lab.Engine.Memory.Runs.{
  create_run, create_run_for_project, replay_run, replay_run_for_project, record_of,
  tenant_idempotency_key, replayed,
}

-- What is found under a key answers a request by its hash with `run`.
pub record Remembers (found : Option IdempotencyRecord) (run : Run) (request_hash : Digest)
    (r : MemoryRepository) : Type 0 where
  pub previous : IdempotencyRecord
  pub present : found ≡ some previous
  pub same_hash : previous.request_hash ≡ request_hash
  pub same_run : get_or previous.run_id zero_run r.runs ≡ run

-- a request that repeats a remembered one, and one that differs from it
replayed_same :
    {found : Option IdempotencyRecord} {run : Run} {request_hash : Digest} {r : MemoryRepository}
    (c : Remembers found run request_hash r)
    → replayed request_hash r c.previous ≡ ok (run, true)
replayed_same {request_hash} c =
    ground (arith, c.same_hash, c.same_run, bytes_beq_iff c.previous.request_hash request_hash)

replayed_other :
    {found : Option IdempotencyRecord} {run : Run} {request_hash : Digest} {r : MemoryRepository}
    (c : Remembers found run request_hash r) (other : Digest)
    → other ≢ request_hash
    → replayed other r c.previous ≡ err idempotency_conflict
replayed_other c other ne = ground (arith, c.same_hash, bytes_beq_iff c.previous.request_hash other)

-- How a key is answered in a state, by creation and by replay: the same request with the run that
-- it created, a different one with a conflict; neither changes the state.
pub record Settles
    (create : Time → Digest → RunBundle → MemoryRepository → Try (Run × Bool) × MemoryRepository)
    (replay : Digest → MemoryRepository → Try (Run × Bool)) (run : Run) (request_hash : Digest)
    (r : MemoryRepository) : Type 0 where
  pub again :
      (now : Time) (bundle : RunBundle) → create now request_hash bundle r ≡ (ok (run, true), r)
  pub refused :
      (now : Time) (other : Digest) (bundle : RunBundle)
      → other ≢ request_hash
      → create now other bundle r ≡ (err idempotency_conflict, r)
  pub replays : replay request_hash r ≡ ok (run, true)
  pub conflicts :
      (other : Digest) → other ≢ request_hash → replay other r ≡ err idempotency_conflict

module _ (key : Digest) {run : Run} (request_hash : Digest) (r : MemoryRepository) where
  create_run-Remembers :
      (now : Time) (bundle : RunBundle) {again : Bool}
      → (create_run now key request_hash bundle r).0 ≡ ok (run, again)
      → let r' = (create_run now key request_hash bundle r).1 in
        Remembers (lookup key r'.idempotency) run request_hash r'
  unfolding create_run enqueue put_outbox
  create_run-Remembers now bundle h = elim (Option-cases (lookup key r.idempotency)) [
    | inl fresh ↦ record {
      previous = record_of request_hash bundle;
      present = rw (fresh, create_run) (lookup-insert_self key _ r.idempotency);
      same_hash = refl;
      same_run = ground (arith, fresh, h, lookup-insert_self bundle.run.id bundle.run r.runs);
    }
    | inr (previous, found) ↦ record {
      previous = previous;
      present = rw (found, create_run) found;
      same_hash = ground (arith, found, h, bytes_beq_iff previous.request_hash request_hash);
      same_run = ground (arith, found, h);
    }
  ]

  Remembers-create_run :
      Remembers (lookup key r.idempotency) run request_hash r
      → Settles (λ now. create_run now key) (replay_run key) run request_hash r
  unfolding create_run replay_run
  Remembers-create_run c = record {
    again = λ now bundle. rw (c.present, create_run, replayed_same c);
    refused = λ now other bundle ne. rw (c.present, create_run, replayed_other c other ne);
    replays = rw (c.present, replay_run) (replayed_same c);
    conflicts = λ other ne. rw (c.present, replay_run) (replayed_other c other ne);
  }

module _ (project_id : String) (key : Digest) {run : Run} (request_hash : Digest)
    (r : MemoryRepository) where
  create_run_for_project-Remembers :
      (now : Time) (bundle : RunBundle) {again : Bool}
      → (create_run_for_project now project_id key request_hash bundle r).0 ≡ ok (run, again)
      → let r' = (create_run_for_project now project_id key request_hash bundle r).1 in
        Remembers
          (lookup (tenant_idempotency_key project_id key) r'.tenant_idempotency)
          run
          request_hash
          r'
  unfolding create_run_for_project enqueue put_outbox
  create_run_for_project-Remembers now bundle h =
      elim (Option-cases (lookup (tenant_idempotency_key project_id key) r.tenant_idempotency)) [
        | inl fresh ↦ record {
          previous = record_of request_hash bundle;
          present =
              rw (fresh, create_run_for_project)
                (lookup-insert_self (tenant_idempotency_key project_id key) _ r.tenant_idempotency);
          same_hash = refl;
          same_run = ground (arith, fresh, h, lookup-insert_self bundle.run.id bundle.run r.runs);
        }
        | inr (previous, found) ↦ record {
          previous = previous;
          present = rw (found, create_run_for_project) found;
          same_hash = ground (arith, found, h, bytes_beq_iff previous.request_hash request_hash);
          same_run = ground (arith, found, h);
        }
      ]

  Remembers-create_run_for_project :
      Remembers
        (lookup (tenant_idempotency_key project_id key) r.tenant_idempotency)
        run
        request_hash
        r
      → Settles
          (λ now. create_run_for_project now project_id key)
          (replay_run_for_project project_id key)
          run
          request_hash
          r
  unfolding create_run_for_project replay_run_for_project
  Remembers-create_run_for_project c = record {
    again = λ now bundle. rw (c.present, create_run_for_project, replayed_same c);
    refused =
        λ now other bundle ne. rw (c.present, create_run_for_project, replayed_other c other ne);
    replays = rw (c.present, replay_run_for_project) (replayed_same c);
    conflicts = λ other ne. rw (c.present, replay_run_for_project) (replayed_other c other ne);
  }

-- Once a creation has returned a run, whether new or replayed, its key is settled in the state that it
-- leaves: a request with the key and the same body gets that run and changes nothing, and a request
-- with the key and another body is refused as a conflict and changes nothing.
pub create_run-Settles :
    (now : Time) (key request_hash : Digest) (bundle : RunBundle) (r : MemoryRepository) {run : Run}
    {again : Bool}
    → (create_run now key request_hash bundle r).0 ≡ ok (run, again)
    → Settles
        (λ t. create_run t key)
        (replay_run key)
        run
        request_hash
        (create_run now key request_hash bundle r).1
create_run-Settles now key request_hash bundle r h =
    Remembers-create_run key request_hash _ (create_run-Remembers key request_hash r now bundle h)

-- Once a project's creation has returned a run, its key is settled for the project in the state that
-- it leaves: the same request gets that run, another body under the key is refused as a conflict,
-- and neither changes anything.
pub create_run_for_project-Settles :
    (now : Time) (project_id : String) (key request_hash : Digest) (bundle : RunBundle)
    (r : MemoryRepository) {run : Run} {again : Bool}
    → (create_run_for_project now project_id key request_hash bundle r).0 ≡ ok (run, again)
    → Settles
        (λ t. create_run_for_project t project_id key)
        (replay_run_for_project project_id key)
        run
        request_hash
        (create_run_for_project now project_id key request_hash bundle r).1
create_run_for_project-Settles now project_id key request_hash bundle r h =
    Remembers-create_run_for_project project_id key request_hash _
      (create_run_for_project-Remembers project_id key request_hash r now bundle h)
