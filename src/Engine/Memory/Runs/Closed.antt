-- ===== src/Engine/Memory/Runs/Closed.antt =====
-- The stored requests of the projects name stored runs in every state that creations reach.
use parity_lab.Prelude.{String, string_eq, eq_iff, arith}
use parity_lab.Prelude.Table.{lookup, lookup-insert}
use parity_lab.Domain.{Time}
use parity_lab.Engine.Records.{Digest, RunBundle}
use parity_lab.Engine.Memory.{MemoryRepository, enqueue, put_outbox, new_memory_repository}
use parity_lab.Engine.Memory.Runs.{
  create_run, create_run_for_project, tenant_idempotency_key, record_of,
}
use parity_lab.Engine.Memory.Runs.Isolation.{IsClosed, IsNamed}

pub new-IsClosed : IsClosed new_memory_repository
unfolding new_memory_repository lookup
new-IsClosed = record { replayable = λ key previous e. cc }

pub create_run-IsClosed :
    (now : Time) (key request_hash : Digest) (bundle : RunBundle) (r : MemoryRepository)
    → IsClosed r
    → IsClosed (create_run now key request_hash bundle r).1
unfolding create_run enqueue put_outbox
create_run-IsClosed now key request_hash bundle r c = record {
  replayable = λ k previous e. ground (
    arith,
    e,
    c.replayable k previous,
    lookup-insert bundle.run.id previous.run_id bundle.run r.runs,
    eq_iff bundle.run.id previous.run_id,
  );
}

-- A creation for a project, whatever its outcome, keeps every stored request of a project naming a stored run.
pub create_run_for_project-IsClosed :
    (now : Time) (project_id : String) (key request_hash : Digest) (bundle : RunBundle)
    (r : MemoryRepository)
    → IsClosed r
    → IsClosed (create_run_for_project now project_id key request_hash bundle r).1
unfolding create_run_for_project enqueue put_outbox
create_run_for_project-IsClosed now project_id key request_hash bundle r c = record {
  replayable = λ k previous e. ground (
    arith,
    e,
    c.replayable k previous,
    lookup-insert (tenant_idempotency_key project_id key) k (record_of request_hash bundle)
        r.tenant_idempotency,
    eq_iff (tenant_idempotency_key project_id key) k,
    lookup-insert bundle.run.id previous.run_id bundle.run r.runs,
    eq_iff bundle.run.id previous.run_id,
  );
}

pub new-IsNamed : IsNamed new_memory_repository
unfolding new_memory_repository lookup
new-IsNamed = record { named = λ id run e. cc }

-- A creation for a project keeps every run stored under its id.
create_run_for_project-IsNamed :
    (now : Time) (project_id : String) (key request_hash : Digest) (bundle : RunBundle)
    (r : MemoryRepository)
    → IsNamed r
    → IsNamed (create_run_for_project now project_id key request_hash bundle r).1
unfolding create_run_for_project enqueue put_outbox
create_run_for_project-IsNamed now project_id key request_hash bundle r h = record {
  named = λ id run e. ground (
    arith,
    e,
    h.named id run,
    lookup-insert bundle.run.id id bundle.run r.runs,
    eq_iff bundle.run.id id,
  );
}
