-- ===== src/Engine/Service/Ingress.antt =====
-- service.go: `RecordWebhook` and what it keeps of an envelope. `Envelope` is what `json.Unmarshal` makes of
-- the body; a negative `created` counts as 0 does. The loops go over the characters of a text.
pub mod Sanitizing
use Prim.Native.Char.{Char, code}
use parity_lab.Prelude.{
  ℕ, ◌+◌, ◌*◌, String, Bool, true, false, ◌==◌, string_eq, num_eq, if◌then◌else◌, ◌&&◌, ◌||◌, not,
  ltb, leb,
}
use parity_lab.Failure.{Try, ok, err}
use parity_lab.Domain.{Time, second}
use parity_lab.Engine.Records.{Digest, WebhookReceipt}
use parity_lab.Engine.Memory.{MemoryRepository}
use parity_lab.Engine.Memory.Webhooks.{mark_webhook_seen}

pub record Envelope : Type 0 where
  pub created : ℕ
  pub object_id : String
  pub object_status : String
  pub correlation_id : String

-- 1 January 1970
abbrev pub unix_epoch : Time
unix_epoch = 62135596800000000000

abbrev between : ℕ → ℕ → Char → Bool
between low high c = leb low (code c) && leb (code c) high

-- what an unreadable body leaves
abbrev pub zero_envelope : Envelope
zero_envelope = record { created = 0; object_id = ""; object_status = ""; correlation_id = "" }

abbrev pub seen_or_failed : Try Bool → Bool
seen_or_failed (ok duplicate) = duplicate
seen_or_failed (err e) = true

-- the characters that an identifier may have: letters, digits, `_` and `-`
unfoldable pub is_identifier_char : Char → Bool
is_identifier_char c =
    between 97 122 c
    || between 65 90 c
    || between 48 57 c
    || num_eq (code c) 95
    || num_eq (code c) 45

-- the characters that a status may have: lower-case letters and `_`
unfoldable pub is_status_char : Char → Bool
is_status_char c = between 97 122 c || num_eq (code c) 95

-- the loop over the characters
unfoldable pub only : (Char → Bool) → String → Bool
only allowed String.[] = true
only allowed (String.◌∷◌ c s) = if not (allowed c) then false else only allowed s

abbrev pub has_prefix : String → String → Bool
has_prefix value prefix = Prim.Native.String.slice value 0 (Prim.Native.String.len prefix) == prefix

unfoldable pub safe_webhook_identifier : String → String → ℕ → String
unfolding is_identifier_char only
safe_webhook_identifier value prefix max_length =
    if num_eq (Prim.Native.String.len value) 0
      || ltb max_length (Prim.Native.String.len value)
      || not (has_prefix value prefix)
    then ""
    else if only is_identifier_char value
    then value
    else ""

unfoldable pub safe_webhook_status : String → String
unfolding is_status_char only
safe_webhook_status value =
    if ltb 64 (Prim.Native.String.len value)
    then ""
    else if only is_status_char value
    then value
    else ""

module _ (sha256 : String → Digest) (now : Time) where
  unfoldable pub receipt_of : String → String → String → String → Envelope → WebhookReceipt
  unfolding safe_webhook_identifier safe_webhook_status
  receipt_of event_id event_type endpoint_token body envelope = record {
    event_id = event_id;
    event_type = event_type;
    endpoint_token_sha = sha256 endpoint_token;
    body_sha = sha256 body;
    stripe_created_at =
        if ltb 0 envelope.created then unix_epoch + envelope.created * second else 0;
    stripe_object_id = safe_webhook_identifier envelope.object_id "pi_" 255;
    object_status = safe_webhook_status envelope.object_status;
    correlation_id = safe_webhook_identifier envelope.correlation_id "plcorr_" 128;
  }

  unfoldable pub record_webhook :
      String → String → String → String → Envelope → MemoryRepository → Try Bool × MemoryRepository
  unfolding receipt_of
  record_webhook event_id event_type endpoint_token body envelope r =
      mark_webhook_seen now (receipt_of event_id event_type endpoint_token body envelope) r

  -- `MarkWebhookSeen` of the service, whose body is empty
  unfoldable pub service_mark_webhook_seen : String → MemoryRepository → Bool × MemoryRepository
  unfolding record_webhook
  service_mark_webhook_seen event_id r =
      let (answer, r') = record_webhook event_id "unknown" "" "" zero_envelope r in
      (seen_or_failed answer, r')
