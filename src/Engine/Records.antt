-- ===== src/Engine/Records.antt =====
-- repository.go: the values of the persistence port, and the projections of a correlated webhook.
-- `sha256` is the digest of the standard library, a parameter. A payload that the code marshals
-- from string fields is an object of such fields.
use parity_lab.Prelude.{
  ℕ, String, Bytes, Bool, true, false, List, [], ◌∷◌, ◌==◌, string_eq, num_eq, ◌||◌, if◌then◌else◌,
  take,
}
use parity_lab.Prelude.Text.{◌<>◌}
use parity_lab.Prelude.Hex.{hex_encode}
use parity_lab.Prelude.Table.{Table}
use parity_lab.Domain.{Time, Fault, Run, Event, Report, Assertion, healthy, text, zero_run}

abbrev pub Digest : Type 0
Digest = Bytes

pub record RunBundle : Type 0 where
  pub run : Run
  pub events : List Event
  pub report : Report
  pub outbox_topic : String
  pub stripe_correlation_id : String
  pub verification_fault : Fault

pub record WebhookReceipt : Type 0 where
  pub event_id : String
  pub event_type : String
  pub endpoint_token_sha : Digest
  pub body_sha : Digest
  pub stripe_created_at : Time
  pub stripe_object_id : String
  pub object_status : String
  pub correlation_id : String

pub data WebhookProcessingStatus : Type 0 where
  pending matched unmatched ignored : WebhookProcessingStatus

pub record WebhookProcessingResult : Type 0 where
  pub event_id : String
  pub event_type : String
  pub status : WebhookProcessingStatus
  pub run_id : String
  pub project_id : String
  pub processing_code : String
  pub already_processed : Bool

pub record EventStreamBatch : Type 0 where
  pub run : Run
  pub events : List Event
  pub high_water : ℕ

-- `EventStreamBatch{}`
abbrev pub zero_batch : EventStreamBatch
zero_batch = record { run = zero_run; events = []; high_water = 0 }

-- `now` is the clock, read when the receipt has no creation time.
unfoldable pub build_webhook_run_event :
    (String → Digest) → Time → WebhookReceipt → String → ℕ → Event
build_webhook_run_event sha256 now receipt run_id sequence =
    let digest = sha256 receipt.event_id in
    record {
      id = "stripe_webhook_" <> hex_encode (take 12 digest);
      run_id = run_id;
      sequence = sequence;
      at = if num_eq receipt.stripe_created_at 0 then now else receipt.stripe_created_at;
      source = "stripe";
      target = "webhook-ingress";
      type = receipt.event_type;
      title = "Stripe webhook correlated";
      detail =
          "A verified sandbox event was correlated to this run using sanitized Stripe metadata.";
      status = healthy;
      latency_ms = 0;
      checkpoint = "stripe-webhook";
      trace_id = "stripe-event-" <> hex_encode (take 8 digest);
      evidence =
          ("stripe_event_id", text receipt.event_id)
          ∷ ("stripe_event_type", text receipt.event_type)
          ∷ ("stripe_payment_intent_id", text receipt.stripe_object_id)
          ∷ ("stripe_payment_intent_status", text receipt.object_status)
          ∷ ("paritylab_correlation_id", text receipt.correlation_id)
          ∷ [];
      is_duplicate = false;
    }

unfoldable pub webhook_correlation_assertion : WebhookReceipt → Assertion
webhook_correlation_assertion receipt = record {
  id = "assert_stripe_webhook_correlated";
  name = "Verified Stripe webhook correlated to the originating run";
  passed = true;
  expected = "matching PaymentIntent and ParityLab correlation metadata";
  observed = "PaymentIntent and correlation metadata matched";
  evidence = "stripe_object:" <> receipt.stripe_object_id;
}

unfoldable pub has_assertion : List Assertion → String → Bool
has_assertion [] id = false
has_assertion (a ∷ as_) id = if a.id == id then true else has_assertion as_ id

unfoldable pub is_supported_stripe_webhook_type : String → Bool
is_supported_stripe_webhook_type event_type =
    event_type == "payment_intent.created"
    || event_type == "payment_intent.processing"
    || event_type == "payment_intent.succeeded"
    || event_type == "payment_intent.payment_failed"
    || event_type == "payment_intent.canceled"

pub record StripeConnection : Type 0 where
  pub id : String
  pub stripe_account_id : String
  pub sandbox_name : String
  pub status : String
  pub created_at : Time
  pub secret_ciphertext : Bytes
  pub secret_encryption_key_id : ℕ

-- `json.RawMessage`, by what unmarshalling into string fields makes of it
pub data RawMessage : Type 0 where
  malformed : RawMessage
  object : Table String String → RawMessage

pub record OutboxMessage : Type 0 where
  pub id : String
  pub topic : String
  pub aggregate_id : String
  pub payload : RawMessage
  pub attempts : ℕ
  pub locked_by : String
  pub locked_at : Time

pub record VerificationEvidence : Type 0 where
  pub run_id : String
  pub assertion : Assertion
  pub checkpoint : String
