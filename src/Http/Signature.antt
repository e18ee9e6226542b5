-- ===== src/Http/Signature.antt =====
-- httpapi/webhook.go: `verifyStripeSignature`. The first parameter is the bytes of the HMAC-SHA256 of a
-- text under a secret. A difference of times is cut at the longest duration, as `time.Sub` does;
-- a time before the year 1 is the year 1, which is as far outside of every tolerance.
pub mod Headers
use parity_lab.Prelude.{
  ℕ, zero, suc, ◌+◌, ◌-◌, ◌*◌, ◌^◌, min, String, Bytes, Bool, true, false, List, [], ◌∷◌, ◌++◌,
  Option, none, some, ltb, ◌==◌, string_eq, bytes_eq, if◌then◌else◌, ◌||◌,
}
use parity_lab.Prelude.Text.{◌<>◌}
use parity_lab.Prelude.Text.Split.{split, cut, trim_space}
use parity_lab.Prelude.Text.Numerals.{ℤ, pos, negsuc, parse_int, format_int}
use parity_lab.Prelude.Hex.{hex_decode}
use parity_lab.Failure.{Failure, Try, ok, err, message}
use parity_lab.Domain.{Time, Duration, second}
use parity_lab.Engine.Service.Ingress.{unix_epoch}

pub record SignatureFields : Type 0 where
  pub timestamp : ℤ
  pub signatures : List String

abbrev pub no_fields : SignatureFields
no_fields = record { timestamp = pos 0; signatures = [] }

-- one part of the header
unfoldable pub read_field : String → SignatureFields → Try SignatureFields
read_field part fields = elim (cut b'=' (trim_space part)) [
  | none ↦ ok fields
  | some (key, value) ↦
      if key == "t"
      then (elim (parse_int 63 value) [
        | none ↦ err (message "invalid timestamp")
        | some parsed ↦ ok (record fields { timestamp = parsed })
      ])
      else if key == "v1"
      then ok (record fields { signatures = fields.signatures ++ (value ∷ []) })
      else ok fields
]

-- the loop over the parts
unfoldable pub read_fields : List String → SignatureFields → Try SignatureFields
unfolding read_field
read_fields [] fields = ok fields
read_fields (part ∷ parts) fields = elim (read_field part fields) [
  | err e ↦ err e
  | ok next ↦ read_fields parts next
]

abbrev pub max_duration : Duration
max_duration = 2 ^ 63 - 1

-- `a.Sub(b) > tolerance`
abbrev pub later_than : Duration → Time → Time → Bool
later_than tolerance a b = ltb tolerance (min (a - b) max_duration)

-- `time.Unix(timestamp, 0)`
abbrev pub unix_time : ℤ → Time
unix_time (pos n) = unix_epoch + n * second
unix_time (negsuc n) = unix_epoch - (suc n) * second

abbrev pub is_nil : List String → Bool
is_nil [] = true
is_nil (s ∷ l) = false

abbrev pub is_unset : ℤ → Bool
is_unset (pos zero) = true
is_unset (pos (suc n)) = false
is_unset (negsuc n) = false

-- the loop over the candidates
unfoldable pub any_matches : Bytes → List String → Bool
any_matches expected [] = false
any_matches expected (candidate ∷ candidates) =
    let rest = any_matches expected candidates in
    elim (hex_decode candidate) [
      | none ↦ rest
      | some decoded ↦ if decoded == expected then true else rest
    ]

abbrev pub signed_message : ℤ → String → String
signed_message timestamp payload = format_int timestamp <> "." <> payload

module _ (hmac : String → String → Bytes) where
  -- the part of `verifyStripeSignature` after the header was read
  unfoldable pub check_fields : String → SignatureFields → String → Time → Duration → Try (Unit {0})
  unfolding any_matches
  check_fields payload fields secret now tolerance =
      let signed_at = unix_time fields.timestamp in
      let expected = hmac secret (signed_message fields.timestamp payload) in
      if is_unset fields.timestamp || is_nil fields.signatures
      then err (message "required signature fields missing")
      else if later_than tolerance now signed_at || later_than tolerance signed_at now
      then err (message "signature timestamp outside tolerance")
      else if any_matches expected fields.signatures
      then ok tt
      else err (message "signature mismatch")

  unfoldable pub verify_stripe_signature :
      String → String → String → Time → Duration → Try (Unit {0})
  unfolding read_fields check_fields
  verify_stripe_signature payload header secret now tolerance =
      elim (read_fields (split b',' header) no_fields) [
        | err e ↦ err e
        | ok fields ↦ check_fields payload fields secret now tolerance
      ]
