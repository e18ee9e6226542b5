-- ===== src/Tests/Webhooks.antt =====
-- A webhook that reaches the run that waits for it.
use parity_lab.Prelude.{true, false, [], ◌∷◌, some, none, string_eq, ◌≡◌, refl}
use parity_lab.Prelude.Table.{lookup, insert, IsMap}
use parity_lab.Failure.{ok}
use parity_lab.Engine.Records.{
  WebhookReceipt, WebhookProcessingResult, matched, is_supported_stripe_webhook_type,
}
use parity_lab.Engine.Memory.{MemoryRepository, new_memory_repository, put_outbox, enqueue}
use parity_lab.Engine.Memory.Runs.{create_run}
use parity_lab.Engine.Memory.Webhooks.{mark_webhook_seen, process_stripe_webhook, matches_in}
use parity_lab.Engine.Memory.Webhooks.Receipts.{process_stripe_webhook-again}
use parity_lab.Engine.Memory.Webhooks.Matching.{Outcome, process_stripe_webhook-Outcome}
use parity_lab.Tests.Data.{test_bundle, test_sha256}

abbrev receipt : WebhookReceipt
receipt = record {
  event_id = "evt_1";
  event_type = "payment_intent.succeeded";
  endpoint_token_sha = 1 ∷ [];
  body_sha = 2 ∷ [];
  stripe_created_at = 5;
  stripe_object_id = "pi_1";
  object_status = "succeeded";
  correlation_id = "plcorr_1";
}

abbrev with_run : MemoryRepository
with_run = (create_run 0 (1 ∷ []) (2 ∷ []) test_bundle new_memory_repository).1

abbrev with_webhook : MemoryRepository
with_webhook = (mark_webhook_seen 0 receipt with_run).1

marked : (mark_webhook_seen 0 receipt with_run).0 ≡ ok false
unfolding mark_webhook_seen create_run new_memory_repository lookup enqueue put_outbox
marked = refl

abbrev result : WebhookProcessingResult
result = record {
  event_id = "evt_1";
  event_type = "payment_intent.succeeded";
  status = matched;
  run_id = "run_000004";
  project_id = "";
  processing_code = "";
  already_processed = false;
}

processed : (process_stripe_webhook test_sha256 0 "evt_1" with_webhook).0 ≡ ok result
unfolding process_stripe_webhook mark_webhook_seen create_run new_memory_repository lookup insert
    enqueue put_outbox is_supported_stripe_webhook_type matches_in
processed = refl

process_stripe_webhook-again_example :
    process_stripe_webhook test_sha256 9 "evt_1"
      (process_stripe_webhook test_sha256 0 "evt_1" with_webhook).1
    ≡ (
      ok (record result { already_processed = true }),
      (process_stripe_webhook test_sha256 0 "evt_1" with_webhook).1,
    )
process_stripe_webhook-again_example =
    process_stripe_webhook-again test_sha256 "evt_1" 0 9 with_webhook processed

one_run : IsMap with_webhook.runs
unfolding mark_webhook_seen create_run new_memory_repository lookup insert enqueue put_outbox
one_run = (refl, tt)

unprocessed : lookup "evt_1" with_webhook.webhook_results ≡ none
unfolding mark_webhook_seen create_run new_memory_repository lookup enqueue put_outbox
unprocessed = refl

stored : lookup "evt_1" with_webhook.webhooks ≡ some receipt
unfolding mark_webhook_seen create_run new_memory_repository lookup insert enqueue put_outbox
stored = refl

process_stripe_webhook-Outcome_example :
    Outcome receipt with_webhook (process_stripe_webhook test_sha256 0 "evt_1" with_webhook)
process_stripe_webhook-Outcome_example =
    process_stripe_webhook-Outcome test_sha256 0 "evt_1" receipt with_webhook one_run unprocessed
      stored
