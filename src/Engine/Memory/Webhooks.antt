-- ===== src/Engine/Memory/Webhooks.antt =====
-- memory_repository.go: `MarkWebhookSeen` and `ProcessStripeWebhook`. `now` is the clock, `sha256` the
-- digest of the standard library.
pub mod Receipts
pub mod Matching
use parity_lab.Prelude.{
  ℕ, ◌+◌, String, Bytes, Bool, true, false, List, [], ◌∷◌, ◌++◌, Option, none, some, ◌==◌,
  string_eq, bytes_eq, if◌then◌else◌, ◌&&◌, ◌||◌, not, leb, length,
}
use parity_lab.Prelude.Table.{Table, lookup, insert, get_or}
use parity_lab.Prelude.Text.{◌<>◌, decimal}
use parity_lab.Failure.{Try, ok, err, message, webhook_conflict}
use parity_lab.Domain.{Time, Run, Event, Assertion, Report, zero_run, zero_report}
use parity_lab.Engine.Records.{
  Digest, WebhookReceipt, WebhookProcessingStatus, pending, matched, unmatched, ignored,
  WebhookProcessingResult, object, build_webhook_run_event, webhook_correlation_assertion,
  has_assertion, is_supported_stripe_webhook_type,
}
use parity_lab.Engine.Timeline.{passed_count}
use parity_lab.Engine.Memory.{MemoryRepository, put_outbox}

-- whether a stored receipt was sent with the same content
abbrev pub same_content : WebhookReceipt → WebhookReceipt → Bool
same_content previous receipt = not (
    not (previous.event_type == receipt.event_type)
    || not (previous.endpoint_token_sha == receipt.endpoint_token_sha)
    || not (previous.body_sha == receipt.body_sha))

unfoldable pub mark_webhook_seen :
    Time → WebhookReceipt → MemoryRepository → Try Bool × MemoryRepository
mark_webhook_seen now receipt r = elim (lookup receipt.event_id r.webhooks) [
  | some previous ↦ (if same_content previous receipt then ok true else err webhook_conflict, r)
  | none ↦
      let r' = record r { webhooks = insert receipt.event_id receipt r.webhooks } in
      (
        ok false,
        put_outbox now "stripe.webhook.received" receipt.event_id
            (object
              (("stripe_event_id", receipt.event_id) ∷ ("event_type", receipt.event_type) ∷ []))
            r',
      )
]

-- the summary of a report after a projection
abbrev pub verification_summary : List Assertion → String
verification_summary assertions =
    decimal (passed_count assertions)
    <> " of "
    <> decimal (length assertions)
    <> " verification assertions passed."

-- the first result, before any check
abbrev pub pending_result : WebhookReceipt → WebhookProcessingResult
pending_result receipt = record {
  event_id = receipt.event_id;
  event_type = receipt.event_type;
  status = pending;
  run_id = "";
  project_id = "";
  processing_code = "";
  already_processed = false;
}

-- an outcome without a match, as it is stored and returned
abbrev pub closed_result :
    WebhookReceipt → WebhookProcessingStatus → String → WebhookProcessingResult
closed_result receipt status code = record (pending_result receipt) {
  status = status;
  processing_code = code;
}

abbrev pub close_webhook :
    String
    → WebhookProcessingResult
    → MemoryRepository
    → Try WebhookProcessingResult × MemoryRepository
close_webhook event_id result r =
    (ok result, record r { webhook_results = insert event_id result r.webhook_results })

-- the loop over the runs: the ids that match the object, and those that match the correlation too
unfoldable pub matches_in :
    WebhookReceipt → Table String String → Table String Run → List String × List String
matches_in receipt correlations [] = ([], [])
matches_in receipt correlations ((run_id, run) ∷ runs) =
    let (objects, correlated) = matches_in receipt correlations runs in
    if not (run.stripe_object_id == receipt.stripe_object_id) then (objects, correlated) else (
      run_id ∷ objects,
      if get_or run_id "" correlations == receipt.correlation_id
          then run_id ∷ correlated
          else correlated,
    )

-- the loop that finds the next sequence
unfoldable pub next_sequence : ℕ → List Event → ℕ
next_sequence n [] = n
next_sequence n (existing ∷ events) =
    next_sequence (if leb n existing.sequence then existing.sequence + 1 else n) events

-- the report after a correlated webhook
unfoldable pub projected_report : WebhookReceipt → Run → Report → Report
projected_report receipt run report =
    let assertions = report.assertions ++ webhook_correlation_assertion receipt ∷ [] in
    if has_assertion report.assertions "assert_stripe_webhook_correlated"
    then record report { run = run }
    else record report {
      run = run;
      assertions = assertions;
      summary = verification_summary assertions;
    }

module _ (sha256 : String → Digest) (now : Time) where
  -- the projection into the run that matched
  unfoldable pub project_match :
      String
      → WebhookReceipt
      → String
      → MemoryRepository
      → Try WebhookProcessingResult × MemoryRepository
  unfolding next_sequence projected_report
  project_match event_id receipt run_id r =
      let events = get_or run_id [] r.events in
      let event = build_webhook_run_event sha256 now receipt run_id (next_sequence 1 events) in
      let events' = events ++ event ∷ [] in
      let run = record (get_or run_id zero_run r.runs) { event_count = length events' } in
      let report = projected_report receipt run (get_or run_id zero_report r.reports) in
      close_webhook event_id
        (record (pending_result receipt) {
          status = matched;
          run_id = run_id;
          project_id = get_or run_id "" r.project_by_run;
        })
        (record r {
          events = insert run_id events' r.events;
          runs = insert run_id run r.runs;
          reports = insert run_id report r.reports;
        })

  -- what follows the loop, by the matches
  unfoldable pub decide_match :
      String
      → WebhookReceipt
      → List String
      → List String
      → MemoryRepository
      → Try WebhookProcessingResult × MemoryRepository
  unfolding project_match
  decide_match event_id receipt [] correlated r =
      close_webhook event_id (closed_result receipt unmatched "run_not_found") r
  decide_match event_id receipt (o ∷ objects) [] r =
      close_webhook event_id (closed_result receipt unmatched "correlation_mismatch") r
  decide_match event_id receipt (o ∷ objects) (run_id ∷ []) r =
      project_match event_id receipt run_id r
  decide_match event_id receipt (o ∷ objects) (c ∷ c' ∷ correlated) r =
      close_webhook event_id (closed_result receipt unmatched "ambiguous_run_match") r

  -- a receipt that has no result yet
  unfoldable pub process_receipt :
      String → WebhookReceipt → MemoryRepository → Try WebhookProcessingResult × MemoryRepository
  unfolding decide_match matches_in
  process_receipt event_id receipt r =
      if not (is_supported_stripe_webhook_type receipt.event_type)
      then close_webhook event_id (closed_result receipt ignored "unsupported_event_type") r
      else if receipt.stripe_object_id == ""
      then close_webhook event_id (closed_result receipt unmatched "missing_stripe_object_id") r
      else if receipt.correlation_id == ""
      then close_webhook event_id (closed_result receipt unmatched "missing_correlation_id") r
      else (let (objects, correlated) = matches_in receipt r.correlation_by_run r.runs in
          decide_match event_id receipt objects correlated r)

  unfoldable pub process_stripe_webhook :
      String → MemoryRepository → Try WebhookProcessingResult × MemoryRepository
  unfolding process_receipt
  process_stripe_webhook event_id r = elim (lookup event_id r.webhook_results) [
    | some previous ↦ (ok (record previous { already_processed = true }), r)
    | none ↦ elim (lookup event_id r.webhooks) [
      | none ↦ (err (message "webhook receipt not found"), r)
      | some receipt ↦ process_receipt event_id receipt r
    ]
  ]
