-- ===== src/Auth/Password.antt =====
-- auth/service.go: `hashPassword` and `verifyPassword`. Argon2id and base64 are parameters.
use Prim.Native.String.append
use parity_lab.Prelude.{
  ℕ, String, Bytes, Bool, false, List, [], ◌∷◌, Option, none, some, length, All, ◌<◌, num_eq, ◌==◌,
  string_eq, bytes_eq, if◌then◌else◌, ◌&&◌, not, ◌≡◌, refl, ap, ◌∙◌,
}
use parity_lab.Prelude.Text.{◌<>◌}
use parity_lab.Prelude.Text.Split.{split, cut, contains, parse_uint, split-append, split_one}
use parity_lab.Prelude.Text.Decimal.{digits_value}
use text.Mathlib.TextLemmas.{append_assoc}

-- `argon2.IDKey`, `base64.RawStdEncoding`
pub record PasswordLibrary : Type 0 where
  pub argon2_id_key : String → Bytes → ℕ → ℕ → ℕ → ℕ → Bytes
  pub raw_std_encode : Bytes → String
  pub raw_std_decode : String → Option Bytes

pub record Parameters : Type 0 where
  pub memory : ℕ
  pub iterations : ℕ
  pub threads : ℕ

abbrev pub no_parameters : Parameters
no_parameters = record { memory = 0; iterations = 0; threads = 0 }

abbrev pub with_parameter : String → ℕ → Parameters → Parameters
with_parameter key parsed p =
    if key == "m"
    then record p { memory = parsed }
    else if key == "t"
    then record p { iterations = parsed }
    else if key == "p"
    then record p { threads = parsed }
    else p

abbrev pub parsed_item : String → Option (String × ℕ)
parsed_item item = elim (cut b'=' item) [
  | none ↦ none
  | some (key, value) ↦ elim (parse_uint 32 value) [ none ↦ none | some n ↦ some (key, n) ]
]

-- the loop over the parameters
unfoldable pub read_parameters : List String → Parameters → Option Parameters
read_parameters [] p = some p
read_parameters (item ∷ items) p = elim (parsed_item item) [
  | none ↦ none
  | some (key, parsed) ↦ read_parameters items (with_parameter key parsed p)
]

abbrev pub supported : Parameters → Bool
supported p = num_eq p.memory 65536 && num_eq p.iterations 1 && num_eq p.threads 4

split-dollar :
    (s rest : String)
    → contains b'$' s ≡ false
    → split b'$' (s <> ("$" <> rest)) ≡ s ∷ split b'$' rest
split-dollar s rest h =
    ap (λ t. split b'$' (s <> t)) (dollar rest) ∙ split-append b'$' s "$" rest h refl
  where
    dollar : (t : String) → "$" <> t ≡ String.◌∷◌ "$" t
    dollar t = append.cons "$" String.[] t ∙ ap (String.◌∷◌ "$") (append.nil t)

-- six texts that `$` joins
abbrev joined : String → String → String → String → String → String → String
joined a b c d e f = a <> ("$" <> (b <> ("$" <> (c <> ("$" <> (d <> ("$" <> (e <> ("$" <> f)))))))))

abbrev IsPlain : String → Type 0
IsPlain s = contains b'$' s ≡ false

split-joined :
    (a b c d e f : String)
    → IsPlain a × IsPlain b × IsPlain c × IsPlain d × IsPlain e × IsPlain f
    → split b'$' (joined a b c d e f) ≡ a ∷ b ∷ c ∷ d ∷ e ∷ f ∷ []
split-joined a b c d e f (pa, pb, pc, pd, pe, pf) =
    let r4 = e <> ("$" <> f) in
    let r3 = d <> ("$" <> r4) in
    let r2 = c <> ("$" <> r3) in
    let r1 = b <> ("$" <> r2) in
    rw
      (
        split-dollar a r1 pa,
        split-dollar b r2 pb,
        split-dollar c r3 pc,
        split-dollar d r4 pd,
        split-dollar e f pe,
        split_one b'$' f pf,
      )
      refl

joined-prefix :
    (a b c d e f : String)
    → (a <> ("$" <> (b <> ("$" <> (c <> ("$" <> (d <> "$"))))))) <> (e <> ("$" <> f))
      ≡ joined a b c d e f
joined-prefix a b c d e f = simp append_assoc

module _ (lib : PasswordLibrary) where
  abbrev pub derived : Bytes → String → Bytes
  derived salt password = lib.argon2_id_key password salt 1 65536 4 32

  abbrev pub encoded_hash : Bytes → String → String
  encoded_hash salt password =
      "$argon2id$v=19$m=65536,t=1,p=4$"
      <> lib.raw_std_encode salt
      <> "$"
      <> lib.raw_std_encode (derived salt password)

  -- `salt` is what `rand` drew
  unfoldable pub hash_password : Option Bytes → String → Option String
  hash_password none password = none
  hash_password (some salt) password = some (encoded_hash salt password)

  -- the salt and the key of an encoded hash against a password
  unfoldable pub key_matches : String → String → String → Bool
  key_matches salt_text key_text password = elim (lib.raw_std_decode salt_text) [
    | none ↦ false
    | some salt ↦ elim (lib.raw_std_decode key_text) [
      | none ↦ false
      | some want ↦ if not (num_eq (length want) 32) then false else derived salt password == want
    ]
  ]

  unfoldable pub verify_parts : List String → String → Bool
  unfolding key_matches read_parameters
  verify_parts (first ∷ algorithm ∷ version ∷ options ∷ salt ∷ key ∷ []) password =
      if algorithm == "argon2id" && version == "v=19"
      then (elim (read_parameters (split b',' options) no_parameters) [
        | none ↦ false
        | some p ↦ if supported p then key_matches salt key password else false
      ])
      else false
  verify_parts _ password = false

  unfoldable pub verify_password : String → String → Bool
  unfolding verify_parts
  verify_password encoded password = verify_parts (split b'$' encoded) password

  -- the hash that no password of an account has
  unfoldable pub dummy_password_hash : Bytes → String
  dummy_password_hash salt = encoded_hash salt "not-a-user-password"

  -- base64 of bytes is read back and has no `$`, and keys are bytes, as many as asked for
  pub record IsPasswordLibrary : Type 0 where
    pub decode-encode :
        (bytes : Bytes)
        → All (λ b. b < 256) bytes
        → lib.raw_std_decode (lib.raw_std_encode bytes) ≡ some bytes
    pub plain_text :
        (bytes : Bytes)
        → All (λ b. b < 256) bytes
        → contains b'$' (lib.raw_std_encode bytes) ≡ false
    pub key_length :
        (password : String) (salt : Bytes) (t m p n : ℕ)
        → length (lib.argon2_id_key password salt t m p n) ≡ n
    pub key_bytes :
        (password : String) (salt : Bytes) (t m p n : ℕ)
        → All (λ b. b < 256) (lib.argon2_id_key password salt t m p n)

  split-encoded_hash :
      (salt : Bytes) (password : String)
      → IsPasswordLibrary
      → All (λ b. b < 256) salt
      → split b'$' (encoded_hash salt password)
        ≡ ""
          ∷ "argon2id"
          ∷ "v=19"
          ∷ "m=65536,t=1,p=4"
          ∷ lib.raw_std_encode salt
          ∷ lib.raw_std_encode (derived salt password)
          ∷ []
  unfolding split contains
  split-encoded_hash salt password law bytes =
      let salt_text = lib.raw_std_encode salt in
      let key_text = lib.raw_std_encode (derived salt password) in
      ap (split b'$') (joined-prefix "" "argon2id" "v=19" "m=65536,t=1,p=4" salt_text key_text)
      ∙ split-joined "" "argon2id" "v=19" "m=65536,t=1,p=4" salt_text key_text (
        refl,
        refl,
        refl,
        refl,
        law.plain_text salt bytes,
        law.plain_text (derived salt password) (law.key_bytes password salt 1 65536 4 32),
      )

  -- A password verifies against its own hash, and any password against the hash of one with the same key.
  pub verify_password-encoded_hash :
      (salt : Bytes) (password other : String)
      → IsPasswordLibrary
      → All (λ b. b < 256) salt
      → verify_password (encoded_hash salt password) other
        ≡ (derived salt other == derived salt password)
  unfolding verify_password verify_parts key_matches read_parameters cut parse_uint split
      digits_value
  verify_password-encoded_hash salt password other law bytes =
      rw
        (
          verify_password,
          split-encoded_hash salt password law bytes,
          key_matches,
          law.decode-encode salt bytes,
          law.decode-encode (derived salt password) (law.key_bytes password salt 1 65536 4 32),
          law.key_length password salt 1 65536 4 32,
        )
        refl
