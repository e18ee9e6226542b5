-- ===== src/Engine/Stripe.antt =====
-- stripe_service.go: connections to Stripe sandboxes, and runs over a PaymentIntent. The gateway has a
-- state of its own; the in-memory repository serves projects. `now` is the clock, and a random draw
-- that fails is `none`.
pub mod Intents
pub mod Payments
pub mod Charges
pub mod Identifiers
pub mod Connecting
use Prim.Native.Char.{Char, code}
use parity_lab.Prelude.{
  ℕ, zero, suc, String, Bytes, Bool, true, false, List, [], ◌∷◌, ◌++◌, Option, none, some, ltb, leb,
  num_eq, ◌==◌, string_eq, if◌then◌else◌, ◌&&◌, ◌||◌, not,
}
use parity_lab.Prelude.Text.{◌<>◌}
use parity_lab.Prelude.Text.Split.{trim_space}
use parity_lab.Failure.{Failure, Try, ok, err, message}
use parity_lab.Domain.{Time}
use parity_lab.Domain.Errors.{ApiError, api_error, invalid, internal, forbidden}
use parity_lab.Secrets.{Cipher, encrypt}
use parity_lab.Engine.Records.{StripeConnection}
use parity_lab.Engine.Memory.{MemoryRepository}
use parity_lab.Engine.Memory.Connections.{
  save_stripe_connection, save_stripe_connection_for_project,
}
use parity_lab.Engine.Service.{Answer, success, failure}
use parity_lab.Engine.Service.Ingress.{has_prefix}
use parity_lab.Auth.{ℤ, pos, negsuc}
use parity_lab.Auth.Service.{random_uuid}

pub record StripeAccount : Type 0 where
  pub id : String

pub record StripePaymentIntent : Type 0 where
  pub id : String
  pub status : String
  pub amount : ℤ
  pub currency : String

pub record StripePaymentIntentParams : Type 0 where
  pub amount_minor : ℤ
  pub currency : String
  pub idempotency_key : String
  pub metadata : List (String × String)

pub record StripeGateway (G : Type 0) : Type 0 where
  pub validate_account : String → G → Try StripeAccount × G
  pub create_payment_intent : String → StripePaymentIntentParams → G → Try StripePaymentIntent × G

-- A nil service is one with neither a gateway nor a cipher.
pub record StripeService (G : Type 0) : Type 0 where
  pub gateway : Option (StripeGateway G)
  pub cipher : Option Cipher

unfoldable pub validate_sandbox_secret : String → Try (Unit {0})
validate_sandbox_secret given =
    let secret = trim_space given in
    if has_prefix secret "sk_live_" || has_prefix secret "rk_live_" || has_prefix secret "pk_live_"
    then err (message "live Stripe keys are not supported")
    else if not (has_prefix secret "sk_test_") && not (has_prefix secret "rk_test_")
    then err (message "a Stripe sandbox secret or restricted key is required")
    else ok tt

abbrev pub not_configured : ApiError
not_configured =
    api_error "api_error" "connection_storage_not_configured"
      "Encrypted Stripe connection storage is not configured." "" 503

-- the text of an error
abbrev pub error_text : Failure → String
error_text (message text) = text
error_text Failure.idempotency_conflict = "idempotency conflict"
error_text Failure.webhook_conflict = "webhook conflict"
error_text Failure.account_exists = "account already exists"
error_text (Failure.permanent code) = code

-- `save`, as the project selects it
abbrev pub save_for :
    String → StripeConnection → MemoryRepository → StripeConnection × MemoryRepository
save_for project_id connection r =
    if project_id == ""
    then save_stripe_connection connection r
    else save_stripe_connection_for_project project_id connection r

abbrev pub connection_of : Time → String → StripeAccount → String → Bytes → StripeConnection
connection_of now id account sandbox_name ciphertext = record {
  id = id;
  stripe_account_id = account.id;
  sandbox_name =
      if trim_space sandbox_name == "" then "Stripe Sandbox" else trim_space sandbox_name;
  status = "connected";
  created_at = now;
  secret_ciphertext = ciphertext;
  secret_encryption_key_id = 1;
}

abbrev pub answered :
    StripeConnection × MemoryRepository → Answer StripeConnection × MemoryRepository
answered (connection, r) = (success connection, r)

-- the part of `validateConnection` that encrypts and stores
unfoldable pub store_connection :
    Time
    → Option Bytes
    → Option Bytes
    → Cipher
    → String
    → String
    → String
    → StripeAccount
    → MemoryRepository
    → Answer StripeConnection × MemoryRepository
store_connection now drawn iv cipher project_id secret sandbox_name account r =
    elim (random_uuid drawn) [
      | none ↦ (failure (internal "connection_id_failed" "The connection could not be created."), r)
      | some id ↦ elim (encrypt iv cipher (trim_space secret) account.id) [
        | err e ↦ (
          failure (
              internal "connection_encryption_failed"
                "The connection secret could not be encrypted."),
          r,
        )
        | ok ciphertext ↦
            answered (save_for project_id (connection_of now id account sandbox_name ciphertext) r)
      ]
    ]

abbrev pub connection_failed : ApiError
connection_failed =
    invalid "stripe_connection_failed" "Stripe could not validate this sandbox key." "secret_key"

module _ {G : Type 0} where
  -- the part of `validateConnection` after the account was asked for
  abbrev pub store_account :
      Time
      → Option Bytes
      → Option Bytes
      → Cipher
      → String
      → String
      → String
      → Try StripeAccount × G
      → MemoryRepository
      → Answer StripeConnection × MemoryRepository × G
  store_account now drawn iv cipher project_id secret sandbox_name (err e, g) r =
      (failure connection_failed, r, g)
  store_account now drawn iv cipher project_id secret sandbox_name (ok account, g) r =
      let (answer, stored) =
        store_connection now drawn iv cipher project_id secret sandbox_name account r in
      if not (has_prefix account.id "acct_")
      then (failure connection_failed, r, g)
      else (answer, stored, g)

  -- `validateConnection`
  unfoldable pub validate_connection :
      Time
      → Option Bytes
      → Option Bytes
      → StripeService G
      → String
      → String
      → String
      → MemoryRepository
      → G
      → Answer StripeConnection × MemoryRepository × G
  unfolding validate_sandbox_secret store_connection
  validate_connection now drawn iv service project_id secret sandbox_name r g =
      elim service.gateway [
        | none ↦ (failure not_configured, r, g)
        | some gateway ↦ elim service.cipher [
          | none ↦ (failure not_configured, r, g)
          | some cipher ↦ elim (validate_sandbox_secret secret) [
            | err e ↦ (failure (invalid "sandbox_key_required" (error_text e) "secret_key"), r, g)
            | ok _ ↦
                store_account now drawn iv cipher project_id secret sandbox_name
                  (gateway.validate_account (trim_space secret) g) r
          ]
        ]
      ]

  unfoldable pub validate_connection_for_project :
      Time
      → Option Bytes
      → Option Bytes
      → StripeService G
      → String
      → String
      → String
      → MemoryRepository
      → G
      → Answer StripeConnection × MemoryRepository × G
  unfolding validate_connection
  validate_connection_for_project now drawn iv service project_id secret sandbox_name r g =
      if project_id == ""
      then (failure (forbidden "project_required" "A project session is required."), r, g)
      else validate_connection now drawn iv service project_id secret sandbox_name r g
