-- ===== src/Engine/Stripe/Identifiers.antt =====
-- stripe_service.go: the ids that `newUUID` draws pass `uuidPattern`.
use Prim.Native.Char.{Char}
use Prim.Native.String.append
use parity_lab.Prelude.{
  ℕ, zero, suc, ◌+◌, ◌/◌, ◌%◌, ◌<◌, ◌≤◌, String, Bytes, Bool, true, List, [], ◌∷◌, some, length,
  take, All, ◌≡◌, refl, sym, ap, subst, ◌∙◌, arith, ◌-◌, ◌⊎◌, inl, inr,
}
use parity_lab.Prelude.Text.{◌<>◌}
use parity_lab.Prelude.Hex.{hex_digit, hex_encode, digit_is_hex}
use parity_lab.Secrets.{drop}
use parity_lab.Auth.Service.{adjust, random_uuid}
use parity_lab.Engine.Stripe.Intents.{
  matches, is_hex_digit, is_dash, is_version, is_variant, times, is_uuid,
}

abbrev pub AreBytes : Bytes → Type 0
AreBytes bytes = All (λ b. b < 256) bytes

hex_encode-append :
    (b : ℕ) (bytes : Bytes) (s : String)
    → hex_encode (b ∷ bytes) <> s
      ≡ String.◌∷◌ (hex_digit (b / 16)) (String.◌∷◌ (hex_digit (b % 16)) (hex_encode bytes <> s))
unfolding hex_encode
hex_encode-append b bytes s =
    append.cons (hex_digit (b / 16)) (String.◌∷◌ (hex_digit (b % 16)) (hex_encode bytes)) s
    ∙ ap (String.◌∷◌ (hex_digit (b / 16))) (append.cons (hex_digit (b % 16)) (hex_encode bytes) s)

-- the hexadecimal text of bytes passes two hexadecimal tests for each byte
matches-hex_encode :
    (bytes : Bytes) (n : ℕ) (ps : List (Char → Bool)) (s : String)
    → AreBytes bytes
    → n ≡ length bytes + length bytes
    → matches (times n is_hex_digit ps) (hex_encode bytes <> s) ≡ matches ps s
unfolding matches hex_encode
matches-hex_encode [] zero ps s hb h = ap (matches ps) (append.nil s)
matches-hex_encode [] (suc n) ps s hb h = absurd (omega (arith, h))
matches-hex_encode (b ∷ bytes) zero ps s hb h = absurd (omega (arith, h))
matches-hex_encode (b ∷ bytes) (suc zero) ps s hb h = absurd (omega (arith, h))
matches-hex_encode (b ∷ bytes) (suc (suc n)) ps s hb h =
    ap (matches (times (suc (suc n)) is_hex_digit ps)) (hex_encode-append b bytes s)
    ∙ rw (digit_is_hex (b / 16) (omega (arith, hb.0)), digit_is_hex (b % 16) (omega arith))
        (matches-hex_encode bytes n ps s hb.1 (omega (arith, h)))

-- the same with a test of the first digit
matches-marked :
    (p : Char → Bool) (b : ℕ) (bytes : Bytes) (ps : List (Char → Bool)) (s : String)
    → p (hex_digit (b / 16)) ≡ true
    → AreBytes bytes
    → length bytes ≡ 1
    → matches (p ∷ times 3 is_hex_digit ps) (hex_encode (b ∷ bytes) <> s) ≡ matches ps s
unfolding matches
matches-marked p b bytes ps s first hb h =
    ap (matches (p ∷ times 3 is_hex_digit ps)) (hex_encode-append b bytes s)
    ∙ rw (first, digit_is_hex (b % 16) (omega arith))
        (matches-hex_encode bytes 2 ps s hb (omega (arith, h)))

matches-dash :
    (ps : List (Char → Bool)) (s : String) → matches (is_dash ∷ ps) ("-" <> s) ≡ matches ps s
unfolding matches
matches-dash ps s =
    ap (matches (is_dash ∷ ps)) (append.cons "-" "" s) ∙ ap (matches ps) (append.nil s)

version_digit : (b : ℕ) → is_version (hex_digit ((b % 16 + 64) / 16)) ≡ true
version_digit b =
    let is : (b % 16 + 64) / 16 ≡ 4 = omega arith in ap (λ d. is_version (hex_digit d)) is ∙ four
  where
    four : is_version (hex_digit 4) ≡ true
    four = unfold hex_digit in refl

variant_digit : (b : ℕ) → is_variant (hex_digit ((b % 64 + 128) / 16)) ≡ true
unfolding hex_digit
variant_digit b = among ((b % 64 + 128) / 16) (ground arith)
  where
    among : (d : ℕ) → (d ≡ 8) ⊎ ((d ≡ 9) ⊎ ((d ≡ 10) ⊎ (d ≡ 11))) → is_variant (hex_digit d) ≡ true
    among d (inl is) = ap (λ n. is_variant (hex_digit n)) is
    among d (inr (inl is)) = ap (λ n. is_variant (hex_digit n)) is
    among d (inr (inr (inl is))) = ap (λ n. is_variant (hex_digit n)) is
    among d (inr (inr (inr is))) = ap (λ n. is_variant (hex_digit n)) is

-- the last bytes, with nothing after them
matches-hex_encode_last :
    (bytes : Bytes) (n : ℕ)
    → AreBytes bytes
    → n ≡ length bytes + length bytes
    → matches (times n is_hex_digit []) (hex_encode bytes) ≡ true
unfolding matches hex_encode
matches-hex_encode_last [] zero hb h = refl
matches-hex_encode_last [] (suc n) hb h = absurd (omega (arith, h))
matches-hex_encode_last (b ∷ bytes) zero hb h = absurd (omega (arith, h))
matches-hex_encode_last (b ∷ bytes) (suc zero) hb h = absurd (omega (arith, h))
matches-hex_encode_last (b ∷ bytes) (suc (suc n)) hb h =
    rw (digit_is_hex (b / 16) (omega (arith, hb.0)), digit_is_hex (b % 16) (omega arith))
      (matches-hex_encode_last bytes n hb.1 (omega (arith, h)))

adjust-AreBytes :
    (i : ℕ) (f : ℕ → ℕ) (bytes : Bytes)
    → ((b : ℕ) → f b < 256)
    → AreBytes bytes
    → AreBytes (adjust i f bytes)
adjust-AreBytes i f [] hf h = tt
adjust-AreBytes zero f (b ∷ bytes) hf h = (hf b, h.1)
adjust-AreBytes (suc i) f (b ∷ bytes) hf h = (h.0, adjust-AreBytes i f bytes hf h.1)

take-AreBytes : (n : ℕ) (bytes : Bytes) → AreBytes bytes → AreBytes (take n bytes)
take-AreBytes zero bytes h = tt
take-AreBytes (suc n) [] h = tt
take-AreBytes (suc n) (b ∷ bytes) h = (h.0, take-AreBytes n bytes h.1)

drop-AreBytes : (n : ℕ) (bytes : Bytes) → AreBytes bytes → AreBytes (drop n bytes)
drop-AreBytes zero bytes h = h
drop-AreBytes (suc n) [] h = tt
drop-AreBytes (suc n) (b ∷ bytes) h = drop-AreBytes n bytes h.1

length-adjust : (i : ℕ) (f : ℕ → ℕ) (bytes : Bytes) → length (adjust i f bytes) ≡ length bytes
length-adjust i f [] = refl
length-adjust zero f (b ∷ bytes) = refl
length-adjust (suc i) f (b ∷ bytes) = omega (arith, length-adjust i f bytes)

length-take : (n : ℕ) (bytes : Bytes) → n ≤ length bytes → length (take n bytes) ≡ n
length-take zero bytes h = refl
length-take (suc n) [] h = absurd (omega (arith, h))
length-take (suc n) (b ∷ bytes) h = omega (arith, length-take n bytes (omega (arith, h)))

length-drop : (n : ℕ) (bytes : Bytes) → length (drop n bytes) ≡ length bytes - n
length-drop zero bytes = omega arith
length-drop (suc n) [] = omega arith
length-drop (suc n) (b ∷ bytes) = omega (arith, length-drop n bytes)

drop-adjust :
    (n m k : ℕ) (f : ℕ → ℕ) (bytes : Bytes)
    → k ≡ n + m
    → drop n (adjust k f bytes) ≡ adjust m f (drop n bytes)
drop-adjust zero m k f bytes h = ap (λ i. adjust i f bytes) (omega (arith, h))
drop-adjust (suc n) m k f [] h = refl
drop-adjust (suc n) m zero f (b ∷ bytes) h = absurd (omega (arith, h))
drop-adjust (suc n) m (suc k) f (b ∷ bytes) h = drop-adjust n m k f bytes (omega (arith, h))

-- the two bytes at a place, the first of which is adjusted
record IsMarked (f : ℕ → ℕ) (bytes : Bytes) : Type 0 where
  first : ℕ
  second : ℕ
  is : bytes ≡ f first ∷ second ∷ []
  byte : second < 256

adjust-IsMarked :
    (f : ℕ → ℕ) (bytes : Bytes)
    → AreBytes bytes
    → 2 ≤ length bytes
    → IsMarked f (take 2 (adjust 0 f bytes))
adjust-IsMarked f [] hb h = absurd (omega (arith, h))
adjust-IsMarked f (b ∷ []) hb h = absurd (omega (arith, h))
adjust-IsMarked f (b ∷ c ∷ bytes) hb h = record { first = b; second = c; is = refl; byte = hb.1.0 }

take-adjust : (n : ℕ) (f : ℕ → ℕ) (bytes : Bytes) → take n (adjust n f bytes) ≡ take n bytes
take-adjust zero f bytes = refl
take-adjust (suc n) f [] = refl
take-adjust (suc n) f (b ∷ bytes) = ap (λ l. b ∷ l) (take-adjust n f bytes)

matches-IsMarked :
    (p : Char → Bool) (f : ℕ → ℕ) (bytes : Bytes) (ps : List (Char → Bool)) (s : String)
    → ((b : ℕ) → p (hex_digit (f b / 16)) ≡ true)
    → IsMarked f bytes
    → matches (p ∷ times 3 is_hex_digit ps) (hex_encode bytes <> s) ≡ matches ps s
matches-IsMarked p f bytes ps s h m =
    ap (λ l. matches (p ∷ times 3 is_hex_digit ps) (hex_encode l <> s)) m.is
    ∙ matches-marked p (f m.first) (m.second ∷ []) ps s (h m.first) (m.byte, tt) refl

-- An id that was drawn from sixteen bytes has the form of a connection's id.
pub random_uuid-is_uuid :
    (drawn : Bytes)
    → AreBytes drawn
    → length drawn ≡ 16
    → (id : String) × (random_uuid (some drawn) ≡ some id) × (is_uuid id ≡ true)
unfolding random_uuid
random_uuid-is_uuid drawn hb h =
    let version : ℕ → ℕ = λ b. b % 16 + 64 in
    let variant : ℕ → ℕ = λ b. b % 64 + 128 in
    let once = adjust 6 version drawn in
    let v = adjust 8 variant once in
    let bo : AreBytes once = adjust-AreBytes 6 version drawn (λ b. omega arith) hb in
    let bv : AreBytes v = adjust-AreBytes 8 variant once (λ b. omega arith) bo in
    let lo = length-adjust 6 version drawn in
    let lv = length-adjust 8 variant once in
    let at6 : IsMarked version (take 2 (drop 6 v)) =
      subst (IsMarked version)
        (sym (
          ap (take 2) (drop-adjust 6 2 8 variant once refl)
          ∙ take-adjust 2 variant (drop 6 once)
          ∙ ap (take 2) (drop-adjust 6 0 6 version drawn refl)))
        (adjust-IsMarked version (drop 6 drawn) (drop-AreBytes 6 drawn hb)
          (omega (arith, h, length-drop 6 drawn))) in
    let at8 : IsMarked variant (take 2 (drop 8 v)) =
      subst (IsMarked variant) (sym (ap (take 2) (drop-adjust 8 0 8 variant once refl))) (
        adjust-IsMarked variant (drop 8 once) (drop-AreBytes 8 once bo)
          (omega (arith, h, lo, length-drop 8 once))) in
    (
      _,
      refl,
      matches-hex_encode (take 4 v) 8 _ _ (take-AreBytes 4 v bv)
            (omega (arith, h, lo, lv, length-take 4 v))
          ∙ matches-dash _ _
          ∙ matches-hex_encode (take 2 (drop 4 v)) 4 _ _
              (take-AreBytes 2 (drop 4 v) (drop-AreBytes 4 v bv))
              (omega (arith, h, lo, lv, length-drop 4 v, length-take 2 (drop 4 v)))
          ∙ matches-dash _ _
          ∙ matches-IsMarked is_version version (take 2 (drop 6 v)) _ _ version_digit at6
          ∙ matches-dash _ _
          ∙ matches-IsMarked is_variant variant (take 2 (drop 8 v)) _ _ variant_digit at8
          ∙ matches-dash _ _
          ∙ matches-hex_encode_last (drop 10 v) 12 (drop-AreBytes 10 v bv)
              (omega (arith, h, lo, lv, length-drop 10 v)),
    )
