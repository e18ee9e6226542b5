-- ===== src/Engine/Memory/Webhooks/Receipts.antt =====
-- Each webhook is recorded once and processed once.
use parity_lab.Prelude.{
  String, Bool, true, false, List, [], ◌∷◌, none, some, ◌==◌, string_eq, bytes_eq, bytes_beq_iff,
  ◌≡◌, refl, sym, ◌∙◌, arith, eq_iff, inl, inr, Option-cases, Bool-cases, ap, not,
}
use parity_lab.Prelude.Table.{lookup, lookup-insert_self}
use parity_lab.Failure.{Try, ok, err, ok-injective, err_not_ok, webhook_conflict, message}
use parity_lab.Domain.{Time}
use parity_lab.Engine.Records.{
  Digest, WebhookReceipt, WebhookProcessingResult, is_supported_stripe_webhook_type,
}
use parity_lab.Engine.Memory.{MemoryRepository, put_outbox}
use parity_lab.Engine.Memory.Webhooks.{
  mark_webhook_seen, same_content, close_webhook, project_match, decide_match, process_receipt,
  process_stripe_webhook,
}

-- the parts of a receipt that identify its delivery
pub record SameDelivery (s t : WebhookReceipt) : Type 0 where
  pub event_id : s.event_id ≡ t.event_id
  pub event_type : s.event_type ≡ t.event_type
  pub endpoint : s.endpoint_token_sha ≡ t.endpoint_token_sha
  pub body : s.body_sha ≡ t.body_sha

-- how the deliveries under the event id of `receipt` are answered in a state, with no change
pub record Seen (receipt : WebhookReceipt) (r : MemoryRepository) : Type 0 where
  pub again :
      (now : Time) (other : WebhookReceipt)
      → SameDelivery other receipt
      → mark_webhook_seen now other r ≡ (ok true, r)
  pub refused :
      (now : Time) (other : WebhookReceipt)
      → other.event_id ≡ receipt.event_id
      → ¬ SameDelivery other receipt
      → mark_webhook_seen now other r ≡ (err webhook_conflict, r)

-- the three comparisons of a content check
same_parts :
    (previous t : WebhookReceipt)
    → same_content previous t ≡ true
    → (previous.event_type ≡ t.event_type)
      × (previous.endpoint_token_sha ≡ t.endpoint_token_sha)
      × (previous.body_sha ≡ t.body_sha)
same_parts previous t h = ground (
  arith,
  eq_iff previous.event_type t.event_type,
  bytes_beq_iff previous.endpoint_token_sha t.endpoint_token_sha,
  bytes_beq_iff previous.body_sha t.body_sha,
)

same_content_of :
    (previous t : WebhookReceipt)
    → previous.event_type ≡ t.event_type
    → previous.endpoint_token_sha ≡ t.endpoint_token_sha
    → previous.body_sha ≡ t.body_sha
    → same_content previous t ≡ true
same_content_of previous t a b c = ground (
  arith,
  eq_iff previous.event_type t.event_type,
  bytes_beq_iff previous.endpoint_token_sha t.endpoint_token_sha,
  bytes_beq_iff previous.body_sha t.body_sha,
)

module _ (receipt previous other : WebhookReceipt)
    (content : same_content previous receipt ≡ true) where
  repeats : SameDelivery other receipt → same_content previous other ≡ true
  repeats same =
      let (a, b, c) = same_parts previous receipt content in
      same_content_of previous other (a ∙ sym same.event_type) (b ∙ sym same.endpoint)
        (c ∙ sym same.body)

  differs_from :
      other.event_id ≡ receipt.event_id
      → ¬ SameDelivery other receipt
      → same_content previous other ≡ false
  differs_from e differs = elim (Bool-cases (same_content previous other)) [
    | inr no_ ↦ no_
    | inl same ↦
        let (a, b, c) = same_parts previous receipt content in
        let (a', b', c') = same_parts previous other same in
        absurd (
          differs (record {
            event_id = e;
            event_type = sym a' ∙ a;
            endpoint = sym b' ∙ b;
            body = sym c' ∙ c;
          }))
  ]

module _ (receipt : WebhookReceipt) where
  record IsStored (r : MemoryRepository) : Type 0 where
    previous : WebhookReceipt
    stored : lookup receipt.event_id r.webhooks ≡ some previous
    content : same_content previous receipt ≡ true

  mark-IsStored :
      (now : Time) (r : MemoryRepository) {duplicate : Bool}
      → (mark_webhook_seen now receipt r).0 ≡ ok duplicate
      → IsStored (mark_webhook_seen now receipt r).1
  unfolding mark_webhook_seen put_outbox
  mark-IsStored now r h = elim (Option-cases (lookup receipt.event_id r.webhooks)) [
    | inl fresh ↦ record {
      previous = receipt;
      stored =
          rw (fresh, mark_webhook_seen) (lookup-insert_self receipt.event_id receipt r.webhooks);
      content = ground (
        arith,
        eq_iff receipt.event_type receipt.event_type,
        bytes_beq_iff receipt.endpoint_token_sha receipt.endpoint_token_sha,
        bytes_beq_iff receipt.body_sha receipt.body_sha,
      );
    }
    | inr (previous, found) ↦ record {
      previous = previous;
      stored = rw (found, mark_webhook_seen) found;
      content = ground (arith, h, found);
    }
  ]

  IsStored-Seen : {r : MemoryRepository} → IsStored r → Seen receipt r
  unfolding mark_webhook_seen
  IsStored-Seen {r} c = record {
    again = λ now other same. rw (
      same.event_id,
      mark_webhook_seen,
      c.stored,
      repeats receipt c.previous other c.content same,
    );
    refused = λ now other e differs.
        rw (
          e,
          mark_webhook_seen,
          c.stored,
          differs_from receipt c.previous other c.content e differs,
        );
  }

-- Once a delivery has been accepted, whether new or repeated, its event id is settled in the
-- state that it leaves: the same delivery is answered as a duplicate and another content under the id as a conflict, both with
-- no change of the state, so no second job is enqueued.
pub mark_webhook_seen-Seen :
    (now : Time) (receipt : WebhookReceipt) (r : MemoryRepository) {duplicate : Bool}
    → (mark_webhook_seen now receipt r).0 ≡ ok duplicate
    → Seen receipt (mark_webhook_seen now receipt r).1
mark_webhook_seen-Seen now receipt r h = IsStored-Seen receipt (mark-IsStored receipt now r h)

-- an outcome that is stored under the event id
abbrev IsRecorded : String → Try WebhookProcessingResult × MemoryRepository → Type 0
IsRecorded event_id out =
    (result : WebhookProcessingResult) × (out.0 ≡ ok result)
    × (lookup event_id out.1.webhook_results ≡ some result)

module _ (sha256 : String → Digest) (now : Time) (event_id : String) where
  close-IsRecorded :
      (result : WebhookProcessingResult) (r : MemoryRepository)
      → IsRecorded event_id (close_webhook event_id result r)
  close-IsRecorded result r = (result, refl, lookup-insert_self event_id result r.webhook_results)

  project-IsRecorded :
      (receipt : WebhookReceipt) (run_id : String) (r : MemoryRepository)
      → IsRecorded event_id (project_match sha256 now event_id receipt run_id r)
  unfolding project_match
  project-IsRecorded receipt run_id r = (_, refl, lookup-insert_self event_id _ r.webhook_results)

  decide-IsRecorded :
      (receipt : WebhookReceipt) (objects correlated : List String) (r : MemoryRepository)
      → IsRecorded event_id (decide_match sha256 now event_id receipt objects correlated r)
  unfolding decide_match
  decide-IsRecorded receipt [] correlated r = close-IsRecorded _ r
  decide-IsRecorded receipt (o ∷ objects) [] r = close-IsRecorded _ r
  decide-IsRecorded receipt (o ∷ objects) (run_id ∷ []) r = project-IsRecorded receipt run_id r
  decide-IsRecorded receipt (o ∷ objects) (c ∷ c' ∷ correlated) r = close-IsRecorded _ r

  process_receipt-IsRecorded :
      (receipt : WebhookReceipt) (r : MemoryRepository)
      → IsRecorded event_id (process_receipt sha256 now event_id receipt r)
  unfolding process_receipt
  process_receipt-IsRecorded receipt r =
      elim (Bool-cases (not (is_supported_stripe_webhook_type receipt.event_type))) [
        | inl unsupported ↦ rw (unsupported, process_receipt) (close-IsRecorded _ r)
        | inr supported ↦ elim (Bool-cases (receipt.stripe_object_id == "")) [
          | inl missing ↦ rw (supported, process_receipt, missing) (close-IsRecorded _ r)
          | inr present ↦ elim (Bool-cases (receipt.correlation_id == "")) [
            | inl missing ↦ rw (supported, process_receipt, present, missing) (close-IsRecorded _ r)
            | inr complete ↦
                rw (supported, process_receipt, present, complete) (decide-IsRecorded receipt _ _ r)
          ]
        ]
      ]

  -- the answer of a later call
  abbrev repeated : WebhookProcessingResult → WebhookProcessingResult
  repeated result = record result { already_processed = true }

  replays :
      (r : MemoryRepository) {previous : WebhookProcessingResult}
      → lookup event_id r.webhook_results ≡ some previous
      → process_stripe_webhook sha256 now event_id r ≡ (ok (repeated previous), r)
  unfolding process_stripe_webhook
  replays r h = rw (h, process_stripe_webhook)

  unknown_answer :
      (r : MemoryRepository)
      → lookup event_id r.webhook_results ≡ none
      → lookup event_id r.webhooks ≡ none
      → process_stripe_webhook sha256 now event_id r
        ≡ (err (message "webhook receipt not found"), r)
  unfolding process_stripe_webhook
  unknown_answer r h k = rw (h, process_stripe_webhook, k)

  pub fresh_answer :
      (r : MemoryRepository) {receipt : WebhookReceipt}
      → lookup event_id r.webhook_results ≡ none
      → lookup event_id r.webhooks ≡ some receipt
      → process_stripe_webhook sha256 now event_id r ≡ process_receipt sha256 now event_id receipt r
  unfolding process_stripe_webhook
  fresh_answer r h k = rw (h, process_stripe_webhook, k)

  IsAnswered : WebhookProcessingResult → MemoryRepository → Type 0
  IsAnswered result r =
      (stored : WebhookProcessingResult) × (lookup event_id r.webhook_results ≡ some stored)
      × (repeated stored ≡ repeated result)

  process-IsAnswered :
      (r : MemoryRepository) {result : WebhookProcessingResult}
      → (process_stripe_webhook sha256 now event_id r).0 ≡ ok result
      → IsAnswered result (process_stripe_webhook sha256 now event_id r).1
  unfolding process_stripe_webhook IsAnswered
  process-IsAnswered r {result} h = elim (Option-cases (lookup event_id r.webhook_results)) [
    | inr (previous, found) ↦
        rw (found, process_stripe_webhook)
          (previous, found, ap repeated (ok-injective (ap (λ x. x.0) (sym (replays r found)) ∙ h)))
    | inl fresh ↦ elim (Option-cases (lookup event_id r.webhooks)) [
      | inl unknown ↦ absurd (err_not_ok (sym h ∙ ap (λ x. x.0) (unknown_answer r fresh unknown)))
      | inr (receipt, seen) ↦
          let (stored, same, there) = process_receipt-IsRecorded receipt r in
          rw (fresh, process_stripe_webhook, seen)
            (
              stored,
              there,
              ap repeated
                  (ok-injective (sym same ∙ ap (λ x. x.0) (sym (fresh_answer r fresh seen)) ∙ h)),
            )
    ]
  ]

module _ (sha256 : String → Digest) (event_id : String) where
  -- A webhook that was processed, with any outcome, is not processed again: the next call, at any
  -- later time, gives the same outcome, marked as already processed, and changes nothing.
  pub process_stripe_webhook-again :
      (now later : Time) (r : MemoryRepository) {result : WebhookProcessingResult}
      → (process_stripe_webhook sha256 now event_id r).0 ≡ ok result
      → process_stripe_webhook sha256 later event_id
          (process_stripe_webhook sha256 now event_id r).1
        ≡ (
          ok (record result { already_processed = true }),
          (process_stripe_webhook sha256 now event_id r).1,
        )
  unfolding IsAnswered
  process_stripe_webhook-again now later r h =
      let (stored, there, same) = process-IsAnswered sha256 now event_id r h in
      replays sha256 later event_id _ there
      ∙ ap (λ x. (ok x, (process_stripe_webhook sha256 now event_id r).1)) same
