-- ===== src/Engine/Memory.antt =====
-- memory_repository.go: the state of the in-memory repository, and what every operation shares. Each
-- operation holds the mutex from end to end, so it is one step from state to state. A map that
-- the code iterates over is visited in the order of first insertion.
pub mod Runs
pub mod Stream
pub mod Outbox
pub mod Webhooks
pub mod Connections
pub mod Evidence
use parity_lab.Prelude.{
  ℕ, ◌+◌, String, Bytes, Bool, false, List, [], ◌∷◌, ◌==◌, string_eq, if◌then◌else◌,
}
use parity_lab.Prelude.Table.{Table, insert}
use parity_lab.Prelude.Text.{◌<>◌, padded}
use parity_lab.Domain.{Time, Run, Event, Report, fault_text, run_status_text}
use parity_lab.Engine.Records.{
  Digest, RunBundle, WebhookReceipt, WebhookProcessingResult, StripeConnection, OutboxMessage,
  RawMessage, object,
}

pub record IdempotencyRecord : Type 0 where
  pub request_hash : Digest
  pub run_id : String

pub record MemoryOutbox : Type 0 where
  pub message : OutboxMessage
  pub available_at : Time
  pub published : Bool
  pub failed : Bool

pub record MemoryRepository : Type 0 where
  pub runs : Table String Run
  pub events : Table String (List Event)
  pub reports : Table String Report
  pub idempotency : Table Digest IdempotencyRecord
  pub tenant_idempotency : Table String IdempotencyRecord
  pub project_by_run : Table String String
  pub correlation_by_run : Table String String
  pub project_by_connection : Table String String
  pub webhooks : Table String WebhookReceipt
  pub webhook_results : Table String WebhookProcessingResult
  pub connections : Table String StripeConnection
  pub next_run : ℕ
  pub outbox : Table String MemoryOutbox
  pub next_outbox : ℕ
  pub merchant_effects : Table String ℕ

unfoldable pub new_memory_repository : MemoryRepository
new_memory_repository = record {
  runs = [];
  events = [];
  reports = [];
  idempotency = [];
  tenant_idempotency = [];
  project_by_run = [];
  correlation_by_run = [];
  project_by_connection = [];
  webhooks = [];
  webhook_results = [];
  connections = [];
  next_run = 4;
  outbox = [];
  next_outbox = 1;
  merchant_effects = [];
}

unfoldable pub outbox_id : ℕ → String
outbox_id n = "outbox_" <> padded 6 n

abbrev pub fresh_item : Time → String → String → String → RawMessage → MemoryOutbox
fresh_item now id topic aggregate_id payload = record {
  message = record {
    id = id;
    topic = topic;
    aggregate_id = aggregate_id;
    payload = payload;
    attempts = 0;
    locked_by = "";
    locked_at = 0;
  };
  available_at = now;
  published = false;
  failed = false;
}

-- `putOutboxLocked`; `now` is the clock.
unfoldable pub put_outbox :
    Time → String → String → RawMessage → MemoryRepository → MemoryRepository
unfolding outbox_id
put_outbox now topic aggregate_id payload r =
    let id = outbox_id r.next_outbox in
    record r {
      next_outbox = r.next_outbox + 1;
      outbox = insert id (fresh_item now id topic aggregate_id payload) r.outbox;
    }

-- `enqueueLocked`
unfoldable pub enqueue : Time → RunBundle → MemoryRepository → MemoryRepository
enqueue now bundle r =
    put_outbox now (if bundle.outbox_topic == "" then "run.persisted" else bundle.outbox_topic)
      bundle.run.id
      (object (
        ("run_id", bundle.run.id)
        ∷ ("scenario_id", bundle.run.scenario_id)
        ∷ ("status", run_status_text bundle.run.status)
        ∷ ("environment", bundle.run.environment)
        ∷ ("verification_fault", fault_text bundle.verification_fault)
        ∷ []))
      r
