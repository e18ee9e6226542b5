-- ===== src/Http/Webhook/Authentic.antt =====
-- A webhook reaches the storage only if it is signed, and is recorded once.
use parity_lab.Prelude.{
  String, Bytes, Bool, true, false, Option, none, some, ◌==◌, string_eq, ◌≡◌, ◌⊎◌, ◌&&◌, ◌||◌, not,
}
use parity_lab.Failure.{Failure, Try, ok, err}
use parity_lab.Domain.{Time}
use parity_lab.Domain.Errors.{ApiError}
use parity_lab.Engine.Records.{Digest}
use parity_lab.Engine.Memory.{MemoryRepository}
use parity_lab.Engine.Service.Ingress.{Envelope, record_webhook}
use parity_lab.Http.Requests.{Config, Request, Response, json, problem}
use parity_lab.Http.Signature.{verify_stripe_signature}
use parity_lab.Http.Webhook.{StripeEnvelope, Received, received, webhook}

-- a refusal that changes nothing
abbrev pub IsRefused : MemoryRepository → Response Received × MemoryRepository → Type 0
IsRefused r (response, after) =
    (status : _) × (e : ApiError) × (response ≡ problem status e) × (after ≡ r)

abbrev pub told : StripeEnvelope → Bool → Response Received
told event duplicate = json 200 (record { duplicate = duplicate; id = event.id; type = event.type })

module _ {S G : Type 0} (hmac : String → String → Bytes) (sha256 : String → Digest)
    (unmarshal : String → Option StripeEnvelope) (envelope_of : String → Envelope)
    (config : Config S G) (now later : Time) (req : Request) (r : MemoryRepository) where
  abbrev pub answer : Time → MemoryRepository → Response Received × MemoryRepository
  answer t s = webhook hmac sha256 unmarshal envelope_of config t req s

  abbrev pub verified : Time → String → Try (Unit {0})
  verified t body =
      verify_stripe_signature hmac body req.stripe_signature config.webhook_secret t
        config.signature_max_age

  -- the tests that a request passes at any time, with its body and its event
  pub record Passes (body : String) (event : StripeEnvelope) : Type 0 where
    pub given : req.body ≡ some body
    pub addressed :
        (not (config.endpoint_token == "") && not (req.path_value == config.endpoint_token)) ≡ false
    pub guarded : (config.webhook_secret == "") ≡ false
    pub read : unmarshal body ≡ some event
    pub complete : (event.id == "" || event.type == "") ≡ false
    pub sandbox : event.livemode ≡ false

  abbrev recorded : StripeEnvelope → String → Time → MemoryRepository → Try Bool × MemoryRepository
  recorded event body t s =
      record_webhook sha256 t event.id event.type req.path_value body (envelope_of body) s

  -- what becomes of a webhook that is sent again, later and over another state: it is a duplicate if its
  -- signature still verifies, and refused if it does not; nothing changes
  abbrev pub IsRepeated : String → StripeEnvelope → MemoryRepository → Type 0
  IsRepeated body event s =
      ((verified later body ≡ ok tt) × (answer later s ≡ (told event true, s)))
      ⊎ ((e : Failure) × (verified later body ≡ err e) × IsRefused s (answer later s))

  -- what a webhook is that was accepted, and then repeated
  pub record IsAccepted (body : String) (event : StripeEnvelope) : Type 0 where
    pub passes : Passes body event
    pub signed : verified now body ≡ ok tt
    pub duplicate : Bool
    pub granted : (answer now r).0 ≡ told event duplicate
    pub again : IsRepeated body event (answer now r).1

  -- why a webhook is refused
  pub data Reason : Type 0 where
    elsewhere :
        (not (config.endpoint_token == "") && not (req.path_value == config.endpoint_token)) ≡ true
        → Reason
    unguarded : (config.webhook_secret == "") ≡ true → Reason
    too_large : req.body ≡ none → Reason
    unsigned :
        (body : String) (e : Failure) → req.body ≡ some body → verified now body ≡ err e → Reason
    unreadable : (body : String) → req.body ≡ some body → unmarshal body ≡ none → Reason
    nameless :
        (body : String) (event : StripeEnvelope)
        → req.body ≡ some body
        → unmarshal body ≡ some event
        → (event.id == "" || event.type == "") ≡ true
        → Reason
    live_mode :
        (body : String) (event : StripeEnvelope)
        → req.body ≡ some body
        → unmarshal body ≡ some event
        → event.livemode ≡ true
        → Reason
    in_conflict :
        (body : String) (event : StripeEnvelope) (e : Failure)
        → Passes body event
        → (recorded event body now r).0 ≡ err e
        → Reason

  abbrev IsAnswered : Type 0
  IsAnswered =
      (IsRefused r (answer now r) × Reason)
      ⊎ ((body : String) × (event : StripeEnvelope) × IsAccepted body event)

  -- the answer to a repeated delivery
  abbrev IsTold : String → StripeEnvelope → MemoryRepository → Type 0
  IsTold body event s =
      let out : Response Received × MemoryRepository =
        (received req event (recorded event body later s).0, (recorded event body later s).1) in
      out ≡ (told event true, s)
