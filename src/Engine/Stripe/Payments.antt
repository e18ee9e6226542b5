-- ===== src/Engine/Stripe/Payments.antt =====
-- stripe_service.go: `createPaymentIntentRun`, cut where it returns early.
use parity_lab.Prelude.{
  ℕ, String, Bool, true, false, Option, none, some, ◌==◌, string_eq, if◌then◌else◌, ◌||◌, not,
}
use parity_lab.Prelude.Text.Numerals.{ℤ}
use parity_lab.Failure.{Try, ok, err}
use parity_lab.Domain.{Time, Run}
use parity_lab.Domain.Errors.{invalid, not_found, internal, forbidden}
use parity_lab.Secrets.{Cipher, decrypt}
use parity_lab.Engine.Records.{Digest, StripeConnection}
use parity_lab.Engine.Memory.{MemoryRepository}
use parity_lab.Engine.Memory.Runs.{next_run_id}
use parity_lab.Engine.Service.{Answer, success, failure, replay_for, create_for, replay_error}
use parity_lab.Engine.Service.Ingress.{has_prefix}
use parity_lab.Engine.Stripe.{
  StripeGateway, StripePaymentIntent, StripeService, not_configured, validate_sandbox_secret,
}
use parity_lab.Engine.Stripe.Intents.{
  is_currency, is_uuid, is_amount_refused, load_for, intent_failed, created_intent, intent_bundle,
  correlation_of, params_of,
}

module _ (sha256 : String → Digest) (atoi : String → Option ℕ) (now : Time) where
  -- the run over an intent that the gateway was asked for, under an id that was drawn
  unfoldable pub persist_intent :
      {G : Type 0}
      → String
      → Digest
      → ℤ
      → String
      → String
      → String
      → Try StripePaymentIntent × G
      → MemoryRepository
      → Answer (Run × Bool) × MemoryRepository × G
  persist_intent project_id request_hash amount currency key id (err e, g) r =
      (failure intent_failed, r, g)
  persist_intent project_id request_hash amount currency key id (ok intent, g) r =
      let (result, stored) =
        create_for now project_id (sha256 key) request_hash
          (intent_bundle atoi now id (correlation_of sha256 key) amount currency intent) r in
      if not (has_prefix intent.id "pi_")
      then (failure intent_failed, r, g)
      else (created_intent result, stored, g)

module _ (sha256 : String → Digest) (atoi : String → Option ℕ) {G : Type 0}
    (gateway : StripeGateway G) (cipher : Cipher) (now : Time) (project_id connection_id : String)
    (amount : ℤ) (currency key : String) (request_hash : Digest) where
  -- the steps with the stored secret
  unfoldable pub charge : String → MemoryRepository → G → Answer (Run × Bool) × MemoryRepository × G
  unfolding validate_sandbox_secret
  charge secret r g =
      let (id, drawn) = next_run_id r in
      elim (validate_sandbox_secret secret) [
        | err e ↦ (
          failure (
              invalid "sandbox_key_required" "The stored Stripe connection is not a sandbox key."
                "connection_id"),
          r,
          g,
        )
        | ok _ ↦
            persist_intent sha256 atoi now project_id request_hash amount currency key id
              (gateway.create_payment_intent secret (params_of sha256 amount currency key) g) drawn
      ]

  -- the steps with the connection that was looked up
  unfoldable pub charge_connection :
      StripeConnection × Bool → MemoryRepository → G → Answer (Run × Bool) × MemoryRepository × G
  charge_connection (connection, found) r g =
      if not found || not (connection.status == "connected")
      then (failure (not_found "stripe_connection" connection_id), r, g)
      else (elim (decrypt cipher connection.secret_ciphertext connection.stripe_account_id) [
        | err e ↦ (
          failure (
              internal "connection_decryption_failed"
                "The Stripe connection could not be decrypted."),
          r,
          g,
        )
        | ok secret ↦ charge secret r g
      ])

  -- the steps after no earlier request was found
  unfoldable pub find_and_charge : MemoryRepository → G → Answer (Run × Bool) × MemoryRepository × G
  find_and_charge r g =
      if not (is_uuid connection_id)
      then (failure (not_found "stripe_connection" connection_id), r, g)
      else charge_connection (load_for project_id connection_id r) r g

  -- the steps after the request's own checks
  unfoldable pub replay_or_charge :
      MemoryRepository → G → Answer (Run × Bool) × MemoryRepository × G
  replay_or_charge r g = elim (replay_for project_id (sha256 key) request_hash r) [
    | err e ↦ (failure (replay_error e), r, g)
    | ok (run, true) ↦ (success (run, true), r, g)
    | ok (run, false) ↦ find_and_charge r g
  ]

module _ (sha256 : String → Digest) (atoi : String → Option ℕ) {G : Type 0} where
  -- the steps after the service was found to be configured
  unfoldable pub checked_payment_intent_run :
      StripeGateway G
      → Cipher
      → Time
      → String
      → String
      → ℤ
      → String
      → String
      → String
      → MemoryRepository
      → G
      → Answer (Run × Bool) × MemoryRepository × G
  checked_payment_intent_run gateway cipher now project_id connection_id amount currency key body r
        g =
      if key == ""
      then (
        failure (
            invalid "idempotency_key_missing"
              "An Idempotency-Key header is required for this request." "Idempotency-Key"),
        r,
        g,
      )
      else if is_amount_refused amount
      then (
        failure (
            invalid "invalid_amount_minor" "amount_minor must be an integer between 1 and 99999999."
              "amount_minor"),
        r,
        g,
      )
      else if not (is_currency currency)
      then (
        failure (
            invalid "invalid_currency" "currency must be a lowercase three-letter ISO code."
              "currency"),
        r,
        g,
      )
      else replay_or_charge sha256 atoi gateway cipher now project_id connection_id amount currency
          key (sha256 body) r g

  -- `createPaymentIntentRun`
  unfoldable pub create_payment_intent_run :
      StripeService G
      → Time
      → String
      → String
      → ℤ
      → String
      → String
      → String
      → MemoryRepository
      → G
      → Answer (Run × Bool) × MemoryRepository × G
  create_payment_intent_run service now project_id connection_id amount currency key body r g =
      elim service.gateway [
        | none ↦ (failure not_configured, r, g)
        | some gateway ↦ elim service.cipher [
          | none ↦ (failure not_configured, r, g)
          | some cipher ↦
              checked_payment_intent_run gateway cipher now project_id connection_id amount currency
                key body r g
        ]
      ]

  unfoldable pub create_payment_intent_run_for_project :
      StripeService G
      → Time
      → String
      → String
      → ℤ
      → String
      → String
      → String
      → MemoryRepository
      → G
      → Answer (Run × Bool) × MemoryRepository × G
  unfolding create_payment_intent_run
  create_payment_intent_run_for_project service now project_id connection_id amount currency key
        body r g =
      if project_id == ""
      then (failure (forbidden "project_required" "A project session is required."), r, g)
      else create_payment_intent_run service now project_id connection_id amount currency key body r
          g
