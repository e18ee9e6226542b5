-- ===== src/Verification/Signing.antt =====
-- `Delivery`, `Signer`, `signingInput`, `stringsOfZero`. The first parameter of a signing function
-- is `hmac key message`, the bytes of the HMAC-SHA256; the second is the signer's secret.
use parity_lab.Prelude.{
  ℕ, zero, suc, ◌<◌, String, Bytes, Bool, true, false, [], none, some, ◌==◌, string_eq, bytes_eq,
  bytes_beq, bytes_beq_iff, if◌then◌else◌, ◌≡◌, refl, sym, ap, ◌∙◌, ◌≢◌, arith, All, ltb,
}
use parity_lab.Prelude.Text.{◌<>◌, decimal}
use parity_lab.Prelude.Hex.{hex_encode, hex_decode, hex_decode-hex_encode}
use parity_lab.Failure.{Try, ok, err, message}

abbrev pub contract_version : String
contract_version = "paritylab.verification.v1"

pub record Delivery : Type 0 where
  pub version : String
  pub event_id : String
  pub effect_id : String
  pub run_id : String
  pub sequence : ℕ
  pub payload_hash : String
  pub signature : String

pub record Receipt : Type 0 where
  pub accepted : Bool
  pub duplicate : Bool
  pub signature_valid : Bool
  pub business_effects : ℕ

-- `NewSigner`: the signer is its secret.
abbrev pub new_signer : String → Try String
new_signer secret =
    if ltb (Prim.Native.String.len secret) 16
    then err (message "verification signing secret must contain at least 16 bytes")
    else ok secret

unfoldable pub signing_input : Delivery → String
signing_input d =
    d.version
    <> "\n"
    <> d.event_id
    <> "\n"
    <> d.effect_id
    <> "\n"
    <> d.run_id
    <> "\n"
    <> decimal d.sequence
    <> "\n"
    <> d.payload_hash

-- the text of `length` zeros that replaces a payload hash
unfoldable pub strings_of_zero : ℕ → String
strings_of_zero zero = ""
strings_of_zero (suc n) = "0" <> strings_of_zero n

module _ (hmac : String → String → Bytes) (secret : String) where
  unfoldable pub sign : Delivery → String
  sign d = hex_encode (hmac secret (signing_input d))

  -- the bytes that a hexadecimal text stands for, nil on an error
  abbrev decoded : String → Bytes
  decoded s = elim (hex_decode s) [ none ↦ [] | some bs ↦ bs ]

  -- `hmac.Equal` compares bytes.
  unfoldable pub verify : Delivery → Bool
  verify d = elim (hex_decode d.signature) [
    | none ↦ false
    | some provided ↦ provided == decoded (sign d)
  ]

  abbrev pub signed : Delivery → Delivery
  signed d = record d { signature = sign d }

  -- the bytes that the standard library's HMAC returns are bytes
  abbrev pub IsByteMac : Type 0
  IsByteMac = (m : String) → All (λ b. b < 256) (hmac secret m)

  pub hex_decode-sign :
      IsByteMac → (d : Delivery) → hex_decode (sign d) ≡ some (hmac secret (signing_input d))
  unfolding sign
  hex_decode-sign bytes d = hex_decode-hex_encode _ (bytes (signing_input d))

  -- The signature does not enter what is signed.
  pub signing_input-signed : (d : Delivery) → signing_input (signed d) ≡ signing_input d
  unfolding signing_input
  signing_input-signed d = refl

  -- With a decodable signature, the check is a comparison with the MAC.
  verify_of_decoded :
      IsByteMac
      → (d : Delivery) (provided : Bytes) → hex_decode d.signature ≡ some provided
      → verify d ≡ bytes_beq provided (hmac secret (signing_input d))
  unfolding verify
  verify_of_decoded bytes d provided e = ground (arith, hex_decode-sign bytes d)

  -- A delivery that was signed with a secret verifies with it; the MAC consists of bytes.
  pub verify-signed : IsByteMac → (d : Delivery) → verify (signed d) ≡ true
  verify-signed bytes d =
      verify_of_decoded bytes (signed d) (hmac secret (signing_input d)) (hex_decode-sign bytes d)
      ∙ (bytes_beq_iff _ _).1 (ap (hmac secret) (sym (signing_input-signed d)))

  -- A delivery that carries another delivery's signature does not verify if their MACs
  -- differ; the MAC consists of bytes.
  pub verify_forged :
      IsByteMac
      → (d f : Delivery) → f.signature ≡ sign d
      → hmac secret (signing_input f) ≢ hmac secret (signing_input d)
      → verify f ≡ false
  verify_forged bytes d f e ne =
      verify_of_decoded bytes f (hmac secret (signing_input d))
        (ap hex_decode e ∙ hex_decode-sign bytes d)
      ∙ differ _ _ (λ h. ne (sym h))
    where
      differ : (s t : Bytes) → s ≢ t → bytes_beq s t ≡ false
      differ s t h = ground (arith, bytes_beq_iff s t)
