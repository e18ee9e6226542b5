-- ===== src/Auth/Service.antt =====
-- auth/service.go: `Service` over the port to the storage. `sha256`, `base64.RawURLEncoding` and the case
-- mapping of `strings.ToLower` are parameters; what `rand` draws is an input, `none` where it fails.
-- A nil service is one with neither a storage nor a cipher.
pub mod Accounts
pub mod Projects
use parity_lab.Prelude.{
  ℕ, zero, suc, ◌+◌, ◌*◌, ◌%◌, String, Bytes, Bool, true, false, List, [], ◌∷◌, Option, none, some,
  take, ltb, ◌==◌, string_eq, if◌then◌else◌, ◌&&◌, ◌||◌, not,
}
use parity_lab.Prelude.Text.{◌<>◌}
use parity_lab.Prelude.Text.Split.{trim_space, contains}
use parity_lab.Prelude.Hex.{hex_encode}
use parity_lab.Failure.{
  Failure, Try, ok, err, idempotency_conflict, webhook_conflict, account_exists, permanent, message,
}
use parity_lab.Domain.{Time, Duration, minute}
use parity_lab.Domain.Errors.{ApiError, api_error, invalid, conflict, internal, unauthorized}
use parity_lab.Secrets.{Cipher, drop, blind_index, encrypt, decrypt}
use parity_lab.Engine.Records.{Digest}
use parity_lab.Engine.Service.{Answer, success, failure}
use parity_lab.Auth.{ℤ, pos, SessionRecord, Registration, IdentityRecord, SessionView, Repository}
use parity_lab.Auth.Password.{PasswordLibrary, hash_password, verify_password, dummy_password_hash}

infixl 5 ◌>>=◌
abbrev pub ◌>>=◌ : {A B : Type 0} → Answer A → (A → Answer B) → Answer B
success a >>= f = f a
failure e >>= f = failure e

abbrev pub or_fail : {A : Type 0} → ApiError → Option A → Answer A
or_fail e none = failure e
or_fail e (some a) = success a

abbrev pub or_fail_try : {A : Type 0} → ApiError → Try A → Answer A
or_fail_try e (ok a) = success a
or_fail_try e (err f) = failure e

abbrev pub refuse_if : Bool → ApiError → Answer (Unit {0})
refuse_if test e = if test then failure e else success tt

abbrev pub session_ttl : Duration
session_ttl = 24 * (60 * minute)

-- `value[i] = f value[i]`
abbrev pub adjust : ℕ → (ℕ → ℕ) → Bytes → Bytes
adjust i f [] = []
adjust zero f (b ∷ bytes) = f b ∷ bytes
adjust (suc i) f (b ∷ bytes) = b ∷ adjust i f bytes

-- the version and the variant of a random UUID: the low bits of a byte are its remainder
abbrev pub marked : Bytes → Bytes
marked value = adjust 8 (λ b. b % 64 + 128) (adjust 6 (λ b. b % 16 + 64) value)

unfoldable pub random_uuid : Option Bytes → Option String
random_uuid none = none
random_uuid (some drawn) =
    let value = marked drawn in
    some (
      hex_encode (take 4 value)
      <> "-"
      <> hex_encode (take 2 (drop 4 value))
      <> "-"
      <> hex_encode (take 2 (drop 6 value))
      <> "-"
      <> hex_encode (take 2 (drop 8 value))
      <> "-"
      <> hex_encode (drop 10 value))

unfoldable pub session_view : IdentityRecord → String → SessionView
session_view identity email = record {
  authenticated = true;
  user = record { id = identity.user_id; email = email };
  organization = record {
    id = identity.organization_id;
    name = identity.organization_name;
    role = identity.role;
  };
  project = record {
    id = identity.project_id;
    name = identity.project_name;
    retention_days = identity.retention_days;
  };
  expires_at = identity.session_expires_at;
}

unfoldable pub unavailable : ApiError
unavailable =
    api_error "api_error" "auth_not_configured" "Authentication storage is not configured." "" 503

-- what a registration draws, in the order of the draws
pub record Draws : Type 0 where
  pub user : Option Bytes
  pub organization : Option Bytes
  pub project : Option Bytes
  pub salt : Option Bytes
  pub nonce : Option Bytes
  pub token : Option Bytes

-- what the service takes from other packages
pub record AuthLibrary : Type 0 where
  pub passwords : PasswordLibrary
  pub sha256 : String → Digest
  pub hmac : Digest → String → Digest
  pub raw_url_encode : Bytes → String
  pub to_lower : String → String
  pub dummy_salt : Bytes

pub record Service (S : Type 0) : Type 0 where
  pub repo : Option (Repository S)
  pub cipher : Option Cipher

module _ (lib : AuthLibrary) where
  abbrev pub normalized_email : String → String
  normalized_email email = lib.to_lower (trim_space email)

  unfoldable pub validate_credentials : String → String → Answer String
  validate_credentials email password =
      let normalized = normalized_email email in
      let email_length = Prim.Native.String.len normalized in
      let password_length = Prim.Native.String.len password in
      if ltb email_length 3 || ltb 254 email_length || not (contains b'@' normalized)
      then failure (invalid "invalid_email" "A valid email is required." "email")
      else if ltb password_length 12 || ltb 256 password_length
      then failure (
          invalid "weak_password" "Password must contain between 12 and 256 characters." "password")
      else success normalized

  unfoldable pub new_session_token : Option Bytes → Option (String × Digest)
  new_session_token none = none
  new_session_token (some raw) =
      let token = lib.raw_url_encode raw in some (token, lib.sha256 token)

  abbrev pub not_created : String → ApiError
  not_created code = internal code "The account could not be created."

  -- the part of `Register` before the storage: the registration, the email and the token
  unfoldable pub registration_of :
      Draws
      → Time
      → Cipher
      → String
      → String
      → String
      → String
      → Answer (Registration × String × String)
  unfolding validate_credentials random_uuid new_session_token
  registration_of draws now cipher email password organization_name project_name = do
    normalized ← validate_credentials email password
    _ ← refuse_if (trim_space organization_name == "" || trim_space project_name == "") (
        invalid "parameter_missing" "workspace_name and project_name are required."
          "workspace_name")
    user_id ← or_fail (not_created "identity_creation_failed") (random_uuid draws.user)
    organization_id ←
        or_fail (not_created "identity_creation_failed") (random_uuid draws.organization)
    project_id ← or_fail (not_created "identity_creation_failed") (random_uuid draws.project)
    password_hash ←
        or_fail (not_created "password_hash_failed")
          (hash_password lib.passwords draws.salt password)
    email_ciphertext ←
        or_fail_try (not_created "email_encryption_failed")
          (encrypt draws.nonce cipher normalized user_id)
    (token, token_hash) ←
        or_fail (internal "session_creation_failed" "The session could not be created.")
          (new_session_token draws.token)
    success (
      record {
        user = record {
          id = user_id;
          email_ciphertext = email_ciphertext;
          email_hash = blind_index lib.hmac cipher normalized;
          password_hash = password_hash;
        };
        organization_id = organization_id;
        organization_name = trim_space organization_name;
        project_id = project_id;
        project_name = trim_space project_name;
        retention_days = pos 30;
        session = record {
          token_hash = token_hash;
          user_id = user_id;
          project_id = project_id;
          expires_at = now + session_ttl;
        };
      },
      normalized,
      token,
    )
