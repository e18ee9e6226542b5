-- ===== src/Http/Signature/Headers.antt =====
-- The header of one timestamp and one signature, as Stripe sends it.
use Prim.Native.Char.{Char, code}
use Prim.Native.String.append
use parity_lab.Prelude.{
  ℕ, zero, suc, ◌+◌, ◌<◌, ◌≤◌, ◌^◌, ◌++◌, String, Bytes, Bool, true, false, List, [], ◌∷◌, Option,
  none, some, ltb, num_eq, ◌==◌, string_eq, bytes_eq, bytes_beq_iff, eq_iff, if◌then◌else◌, ◌||◌,
  ◌≡◌, ◌≢◌, ◌↔◌, ◌⊎◌, refl, sym, ap, ◌∙◌, arith, inl, inr, Bool-cases, All,
}
use parity_lab.Prelude.Text.{◌<>◌, decimal}
use parity_lab.Prelude.Text.Split.{
  split, cut, trim_space, contains, split-append, split_one, is_hex, every, every-append,
  contains-append,
}
use parity_lab.Prelude.Text.Numerals.{
  ℤ, pos, parse_int, is_ink, every_weaker, decimal-is_hex, contains-is_hex, trim_space_ink,
  parse_int-decimal,
}
use text.Mathlib.TextLemmas.{append_assoc}
use parity_lab.Prelude.Hex.{hex_encode, hex_decode-hex_encode, hex_encode-is_hex}
use parity_lab.Failure.{ok}
use parity_lab.Domain.{Time, Duration}
use parity_lab.Http.Signature.{
  SignatureFields, no_fields, max_duration, read_field, read_fields, unix_time, any_matches,
  signed_message, check_fields, verify_stripe_signature,
}

abbrev pub header : ℕ → Bytes → String
header n mac = "t=" <> (decimal n <> ("," <> ("v1=" <> hex_encode mac)))

is_ink_of_is_hex : (c : Char) → is_hex c ≡ true → is_ink c ≡ true
unfolding parity_lab.Prelude.Text.Split.is_space
is_ink_of_is_hex c h = ground arith

cut_key :
    (key value : String) (c : Char)
    → contains b'=' key ≡ false
    → code c ≡ b'='
    → cut b'=' (key <> String.◌∷◌ c value) ≡ some (key, value)
unfolding cut contains
cut_key String.[] value c h e = ap (cut b'=') (append.nil (String.◌∷◌ c value)) ∙ ground (arith, e)
cut_key (String.◌∷◌ d key) value c h e =
    ap (cut b'=') (append.cons d key (String.◌∷◌ c value)) ∙ ground (arith, e, cut_key key value c)

-- a text of hexadecimal digits has no separator and no white space
record IsPlain (s : String) : Type 0 where
  no_comma : contains b',' s ≡ false
  ink : every is_ink s ≡ true

is_hex-IsPlain : (s : String) → every is_hex s ≡ true → IsPlain s
is_hex-IsPlain s h = record {
  no_comma = contains-is_hex b',' s (λ c e. ground arith) h;
  ink = every_weaker is_hex is_ink s is_ink_of_is_hex h;
}

glued : (key value : String) → (key <> "=") <> value ≡ key <> String.◌∷◌ "=" value
glued key value =
    append_assoc key "=" value
    ∙ ap (λ t. key <> t) (append.cons "=" String.[] value ∙ ap (String.◌∷◌ "=") (append.nil value))

-- one part of a header: a key, `=` and a value
part_lem :
    (key value : String)
    → contains b'=' key ≡ false
    → every is_ink key ≡ true
    → every is_ink value ≡ true
    → cut b'=' (trim_space ((key <> "=") <> value)) ≡ some (key, value)
unfolding every parity_lab.Prelude.Text.Split.is_space
part_lem key value named ink_key ink_value =
    ap (λ t. cut b'=' (trim_space t)) (glued key value)
    ∙ ap (cut b'=') (
        trim_space_ink (key <> String.◌∷◌ "=" value)
          (every-append is_ink key (String.◌∷◌ "=" value) ink_key ink_value))
    ∙ cut_key key value "=" named refl

timestamp_part :
    (part value : String) (t : ℤ) (fields : SignatureFields)
    → cut b'=' (trim_space part) ≡ some ("t", value)
    → parse_int 63 value ≡ some t
    → read_field part fields ≡ ok (record fields { timestamp = t })
unfolding read_field
timestamp_part part value t fields e parsed = rw (e, read_field, parsed) refl

signature_part :
    (part value : String) (fields : SignatureFields)
    → cut b'=' (trim_space part) ≡ some ("v1", value)
    → read_field part fields ≡ ok (record fields { signatures = fields.signatures ++ (value ∷ []) })
unfolding read_field
signature_part part value fields e = rw (e, read_field) refl

timestamp_field :
    (n : ℕ) (fields : SignatureFields)
    → n < 2 ^ 63
    → read_field ("t=" <> decimal n) fields ≡ ok (record fields { timestamp = pos n })
unfolding every contains parity_lab.Prelude.Text.Split.is_space
timestamp_field n fields fits =
    timestamp_part ("t=" <> decimal n) (decimal n) (pos n) fields
      (part_lem "t" (decimal n) refl refl (is_hex-IsPlain (decimal n) (decimal-is_hex n)).ink)
      (parse_int-decimal 63 n fits)

signature_field :
    (value : String) (fields : SignatureFields)
    → every is_hex value ≡ true
    → read_field ("v1=" <> value) fields
      ≡ ok (record fields { signatures = fields.signatures ++ (value ∷ []) })
unfolding every contains parity_lab.Prelude.Text.Split.is_space
signature_field value fields h =
    signature_part ("v1=" <> value) value fields
      (part_lem "v1" value refl refl (is_hex-IsPlain value h).ink)

split-header :
    (n : ℕ) (mac : Bytes)
    → All (λ b. b < 256) mac
    → split b',' (header n mac) ≡ ("t=" <> decimal n) ∷ ("v1=" <> hex_encode mac) ∷ []
unfolding contains
split-header n mac bytes =
    let first = "t=" <> decimal n in
    let second = "v1=" <> hex_encode mac in
    ap (split b',') (
      sym (append_assoc "t=" (decimal n) ("," <> second))
      ∙ ap (λ t. first <> t)
          (append.cons "," String.[] second ∙ ap (String.◌∷◌ ",") (append.nil second)))
    ∙ split-append b',' first "," second
        (contains-append b',' "t=" (decimal n)
          ∙ (is_hex-IsPlain (decimal n) (decimal-is_hex n)).no_comma)
        refl
    ∙ ap (λ l. first ∷ l)
        (split_one b',' second (
          contains-append b',' "v1=" (hex_encode mac)
          ∙ (is_hex-IsPlain (hex_encode mac) (hex_encode-is_hex mac bytes)).no_comma))

read_fields-header :
    (n : ℕ) (mac : Bytes)
    → n < 2 ^ 63
    → All (λ b. b < 256) mac
    → read_fields (split b',' (header n mac)) no_fields
      ≡ ok (record { timestamp = pos n; signatures = hex_encode mac ∷ [] })
unfolding read_fields
read_fields-header n mac fits bytes =
    rw
      (
        split-header n mac bytes,
        read_fields,
        timestamp_field n no_fields fits,
        signature_field (hex_encode mac) (record no_fields { timestamp = pos n })
            (hex_encode-is_hex mac bytes),
      )
      refl

-- what makes a signature of the payload good at a time
pub record IsSigned (hmac : String → String → Bytes) (payload secret : String) (n : ℕ) (mac : Bytes)
    (now : Time) (tolerance : Duration) : Type 0 where
  pub dated : n ≢ 0
  pub not_old : now ≤ unix_time (pos n) + tolerance
  pub not_early : unix_time (pos n) ≤ now + tolerance
  pub genuine : mac ≡ hmac secret (decimal n <> ("." <> payload))

check_fields_lem :
    (hmac : String → String → Bytes) (payload secret : String) (n : ℕ) (mac : Bytes) (now : Time)
    (tolerance : Duration)
    → All (λ b. b < 256) mac
    → tolerance < max_duration
    → (check_fields hmac payload
          (record { timestamp = pos n; signatures = hex_encode mac ∷ [] })
          secret
          now
          tolerance
        ≡ ok tt)
      ↔ IsSigned hmac payload secret n mac now tolerance
unfolding check_fields any_matches
check_fields_lem hmac payload secret zero mac now tolerance bytes short =
    (λ accepted. absurd (ground (arith, accepted)), λ signed. absurd (signed.dated refl))
check_fields_lem hmac payload secret (suc n) mac now tolerance bytes short = (
  λ accepted. record {
    dated = ground arith;
    not_old = ground (arith, accepted, short);
    not_early = ground (arith, accepted, short);
    genuine = ground (
      arith,
      accepted,
      hex_decode-hex_encode mac bytes,
      bytes_beq_iff mac (hmac secret (signed_message (pos (suc n)) payload)),
    );
  },
  λ signed. ground (
    arith,
    short,
    signed.not_old,
    signed.not_early,
    signed.genuine,
    hex_decode-hex_encode mac bytes,
    bytes_beq_iff mac (hmac secret (signed_message (pos (suc n)) payload)),
  ),
)

verify_stripe_signature-check :
    (hmac : String → String → Bytes) (payload secret : String) (n : ℕ) (mac : Bytes) (now : Time)
    (tolerance : Duration)
    → n < 2 ^ 63
    → All (λ b. b < 256) mac
    → verify_stripe_signature hmac payload (header n mac) secret now tolerance
      ≡ check_fields hmac payload
          (record { timestamp = pos n; signatures = hex_encode mac ∷ [] })
          secret
          now
          tolerance
unfolding verify_stripe_signature
verify_stripe_signature-check hmac payload secret n mac now tolerance fits bytes =
    rw (read_fields-header n mac fits bytes, verify_stripe_signature) refl

-- A header with a timestamp and the hexadecimal text of a MAC verifies a payload exactly if the timestamp is
-- not zero and within the tolerance of the clock on either side, and the MAC is that of the
-- timestamp, a dot and the payload. The conditions are that the timestamp fits into 64 bits, that
-- the MAC consists of bytes and that the tolerance is shorter than the longest duration.
pub verify_stripe_signature-header :
    (hmac : String → String → Bytes) (payload secret : String) (n : ℕ) (mac : Bytes) (now : Time)
    (tolerance : Duration)
    → n < 2 ^ 63
    → All (λ b. b < 256) mac
    → tolerance < max_duration
    → (verify_stripe_signature hmac payload (header n mac) secret now tolerance ≡ ok tt)
      ↔ IsSigned hmac payload secret n mac now tolerance
verify_stripe_signature-header hmac payload secret n mac now tolerance fits bytes short =
    rw (verify_stripe_signature-check hmac payload secret n mac now tolerance fits bytes)
      (check_fields_lem hmac payload secret n mac now tolerance bytes short)
