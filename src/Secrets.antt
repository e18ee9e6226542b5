-- ===== src/Secrets.antt =====
-- secrets/cipher.go: the encryption of stored secrets. AES-GCM, base64, SHA-256 and HMAC are the
-- standard library's, and parameters; a plaintext that the callers convert from a text is that
-- text, and a nonce that `rand` could not give is `none`.
use parity_lab.Prelude.{
  ℕ, suc, zero, String, Bytes, false, List, [], ◌∷◌, ◌++◌, Option, none, some, length, take, num_eq,
  ltb, ◌==◌, string_eq, if◌then◌else◌, ◌≡◌, refl, sym, ap, subst, arith, not,
}
use Prim.Native.Char.{code}
use parity_lab.Failure.{Try, ok, err, message, ok-injective}
use parity_lab.Engine.Records.{Digest}

-- `cipher.AEAD`
pub record Aead : Type 0 where
  pub nonce_size : ℕ
  pub seal : Bytes → String → String → Bytes
  pub unseal : Bytes → Bytes → String → Option String

pub record Cipher : Type 0 where
  pub aead : Aead
  pub index_key : Digest

abbrev pub drop {ℓ} : {A : Type ℓ} → ℕ → List A → List A
drop zero xs = xs
drop (suc n) [] = []
drop (suc n) (x ∷ xs) = drop n xs

-- the bytes of an ASCII text
abbrev pub ascii_bytes : String → Bytes
ascii_bytes String.[] = []
ascii_bytes (String.◌∷◌ c s) = code c ∷ ascii_bytes s

abbrev first_of : Option Bytes → Option Bytes → Option Bytes
first_of none other = other
first_of (some b) other = some b

module _ (std_decode raw_std_decode : String → Option Bytes) (new_aead : Bytes → Try Aead)
    (sha256 : Bytes → Digest) where
  -- `New`
  unfoldable pub new_cipher : String → Try Cipher
  new_cipher encoded_key =
      if encoded_key == ""
      then err (message "PARITYLAB_ENCRYPTION_KEY is required")
      else (elim (first_of (std_decode encoded_key) (raw_std_decode encoded_key)) [
        | none ↦ err (message "PARITYLAB_ENCRYPTION_KEY must be base64-encoded 32 bytes")
        | some key ↦
            if not (num_eq (length key) 32)
            then err (message "PARITYLAB_ENCRYPTION_KEY must be base64-encoded 32 bytes")
            else (elim (new_aead key) [
              | err e ↦ err e
              | ok aead ↦ ok (record {
                aead = aead;
                index_key = sha256 (ascii_bytes "paritylab:blind-index:v1:" ++ key);
              })
            ])
      ])

unfoldable pub blind_index : (Digest → String → Digest) → Cipher → String → Digest
blind_index hmac c value = hmac c.index_key value

unfoldable pub encrypt : Option Bytes → Cipher → String → String → Try Bytes
encrypt drawn c plaintext associated = elim drawn [
  | none ↦ err (message "generate encryption nonce")
  | some nonce ↦ ok (nonce ++ c.aead.seal nonce plaintext associated)
]

unfoldable pub decrypt : Cipher → Bytes → String → Try String
decrypt c ciphertext associated =
    if ltb (length ciphertext) c.aead.nonce_size
    then err (message "encrypted secret is truncated")
    else (elim (c.aead.unseal (take c.aead.nonce_size ciphertext)
        (drop c.aead.nonce_size ciphertext) associated) [
          | none ↦ err (message "encrypted secret authentication failed")
          | some plaintext ↦ ok plaintext
        ])

-- what is sealed under a nonce, with associated data, is unsealed with them
abbrev pub Unseals : Aead → Bytes → String → String → Type 0
Unseals a nonce plaintext associated =
    a.unseal nonce (a.seal nonce plaintext associated) associated ≡ some plaintext

take-append : (xs ys : Bytes) → take (length xs) (xs ++ ys) ≡ xs
take-append [] ys = refl
take-append (x ∷ xs) ys = ap (λ t. x ∷ t) (take-append xs ys)

drop-append : (xs ys : Bytes) → drop (length xs) (xs ++ ys) ≡ ys
drop-append [] ys = refl
drop-append (x ∷ xs) ys = drop-append xs ys

long : (xs ys : Bytes) → ltb (length (xs ++ ys)) (length xs) ≡ false
long [] ys = ground arith
long (x ∷ xs) ys = ground (arith, long xs ys)

-- An encrypted text is decrypted with the associated data that it was encrypted with, where the AEAD unseals
-- what it sealed; the nonce has the length of the cipher's nonces.
pub decrypt-encrypt :
    (c : Cipher) (nonce : Bytes) (plaintext associated : String) (ciphertext : Bytes)
    → Unseals c.aead nonce plaintext associated
    → length nonce ≡ c.aead.nonce_size
    → encrypt (some nonce) c plaintext associated ≡ ok ciphertext
    → decrypt c ciphertext associated ≡ ok plaintext
unfolding encrypt decrypt
decrypt-encrypt c nonce plaintext associated ciphertext law size e =
    let sealed = c.aead.seal nonce plaintext associated in
    subst (λ bytes. decrypt c bytes associated ≡ ok plaintext) (ok-injective e)
      (rw
        (
          decrypt,
          sym size,
          long nonce sealed,
          take-append nonce sealed,
          drop-append nonce sealed,
          law,
        )
        refl)
