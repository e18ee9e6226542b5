-- ===== src/Http/Webhook.antt =====
-- httpapi/webhook.go: the handler of Stripe's webhooks. `StripeEnvelope` is what `json.Unmarshal` makes of the
-- body, and the envelope that `RecordWebhook` reads comes from the same body; the parser is a
-- parameter, and gives `none` for a text that is no JSON value of this type.
pub mod Authentic
use parity_lab.Prelude.{
  String, Bytes, Bool, true, false, Option, none, some, ◌==◌, string_eq, if◌then◌else◌, ◌&&◌, ◌||◌,
  not,
}
use parity_lab.Failure.{
  Failure, Try, ok, err, idempotency_conflict, webhook_conflict, account_exists, permanent, message,
}
use parity_lab.Domain.{Time}
use parity_lab.Domain.Errors.{ApiError, api_error, invalid, not_found, internal}
use parity_lab.Engine.Records.{Digest}
use parity_lab.Engine.Memory.{MemoryRepository}
use parity_lab.Engine.Service.Ingress.{Envelope, record_webhook}
use parity_lab.Http.Requests.{Config, Request, Response, json, write_error}
use parity_lab.Http.Signature.{verify_stripe_signature}

pub record StripeEnvelope : Type 0 where
  pub id : String
  pub type : String
  pub livemode : Bool

-- what the sender of a webhook is told
pub record Received : Type 0 where
  pub duplicate : Bool
  pub id : String
  pub type : String

abbrev pub invalid_event : ApiError
invalid_event =
    invalid "invalid_event" "The signed webhook body is not a valid Stripe event envelope." ""

abbrev pub record_error : Failure → ApiError
record_error webhook_conflict =
    invalid "webhook_event_conflict"
      "This Stripe event ID was already received with different signed content." "id"
record_error idempotency_conflict =
    internal "webhook_persistence_failed" "The verified webhook could not be durably recorded."
record_error account_exists =
    internal "webhook_persistence_failed" "The verified webhook could not be durably recorded."
record_error (permanent code) =
    internal "webhook_persistence_failed" "The verified webhook could not be durably recorded."
record_error (message text) =
    internal "webhook_persistence_failed" "The verified webhook could not be durably recorded."

abbrev pub received : Request → StripeEnvelope → Try Bool → Response Received
received req event (err e) = write_error req (record_error e)
received req event (ok duplicate) =
    json 200 (record { duplicate = duplicate; id = event.id; type = event.type })

module _ (hmac : String → String → Bytes) (sha256 : String → Digest)
    (unmarshal : String → Option StripeEnvelope) (envelope_of : String → Envelope) where
  -- the part of `webhook` after the signature, with the event
  unfoldable pub record_event :
      Time
      → Request
      → String
      → StripeEnvelope
      → MemoryRepository
      → Response Received × MemoryRepository
  record_event now req body event r =
      let (result, after) =
        record_webhook sha256 now event.id event.type req.path_value body (envelope_of body) r in
      if event.id == "" || event.type == ""
      then (write_error req invalid_event, r)
      else if event.livemode
      then (
        write_error req (
            invalid "live_mode_rejected" "ParityLab v1 accepts Stripe sandbox events only."
              "livemode"),
        r,
      )
      else (received req event result, after)

  -- the part of `webhook` after the signature
  unfoldable pub read_event :
      Time → Request → String → MemoryRepository → Response Received × MemoryRepository
  unfolding record_event
  read_event now req body r = elim (unmarshal body) [
    | none ↦ (write_error req invalid_event, r)
    | some event ↦ record_event now req body event r
  ]

  -- the part of `webhook` with the body
  unfoldable pub check_event :
      {S G : Type 0}
      → Config S G
      → Time
      → Request
      → String
      → MemoryRepository
      → Response Received × MemoryRepository
  unfolding verify_stripe_signature read_event
  check_event config now req body r =
      elim (verify_stripe_signature hmac body req.stripe_signature config.webhook_secret now
        config.signature_max_age) [
          | err e ↦ (
            write_error req (
                invalid "signature_verification_failed"
                  "The webhook signature is invalid or outside the accepted time window."
                  "Stripe-Signature"),
            r,
          )
          | ok _ ↦ read_event now req body r
        ]

  unfoldable pub webhook :
      {S G : Type 0}
      → Config S G
      → Time
      → Request
      → MemoryRepository
      → Response Received × MemoryRepository
  unfolding check_event
  webhook config now req r =
      if not (config.endpoint_token == "") && not (req.path_value == config.endpoint_token)
      then (write_error req (not_found "webhook_endpoint" req.path_value), r)
      else if config.webhook_secret == ""
      then (
        write_error req (
            api_error "api_error" "webhook_not_configured" "Webhook verification is not configured."
              "" 503),
        r,
      )
      else (elim req.body [
        | none ↦ (
          write_error req (invalid "request_too_large" "The webhook payload exceeds 1 MiB." ""),
          r,
        )
        | some body ↦ check_event config now req body r
      ])
