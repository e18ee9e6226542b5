-- ===== src/Engine/Stripe/Charges.antt =====
-- stripe_service.go: a payment is asked for once, however often the request is sent.
use parity_lab.Prelude.{
  ℕ, String, Bool, true, false, Option, ◌==◌, string_eq, ◌≡◌, refl, ap, ◌⊎◌, inl, inr, Option-cases,
  Bool-cases, some, sym, subst,
}
use parity_lab.Prelude.Text.Numerals.{ℤ}
use parity_lab.Failure.{Try, ok, err, Try-cases}
use parity_lab.Domain.{Time, Run}
use parity_lab.Domain.Errors.{ApiError}
use parity_lab.Secrets.{Cipher, decrypt}
use parity_lab.Engine.Records.{Digest, StripeConnection}
use parity_lab.Engine.Memory.{MemoryRepository}
use parity_lab.Engine.Memory.Runs.{next_run_id}
use parity_lab.Engine.Service.{Answer, success, failure, replay_for}
use parity_lab.Engine.Service.Creation.{create_for-fresh, create_for-replay_for}
use parity_lab.Engine.Service.Ingress.{has_prefix}
use parity_lab.Engine.Stripe.{
  StripeGateway, StripePaymentIntent, StripeService, validate_sandbox_secret,
}
use parity_lab.Engine.Stripe.Intents.{
  is_currency, is_amount_refused, is_uuid, load_for, created_intent, intent_bundle, correlation_of,
}
use parity_lab.Engine.Stripe.Payments.{
  persist_intent, charge, charge_connection, find_and_charge, replay_or_charge,
  checked_payment_intent_run, create_payment_intent_run,
}

-- a refusal, which stores nothing; a run id may have been drawn
abbrev pub IsRefused :
    {G : Type 0} → MemoryRepository → Answer (Run × Bool) × MemoryRepository × G → Type 0
IsRefused r (answer, after, g) =
    (e : ApiError) × (answer ≡ failure e) × ((after ≡ r) ⊎ (after ≡ (next_run_id r).1))

-- the answers to a request: refused, or granted and replayed from then on
abbrev IsAnswered :
    {G : Type 0}
    → String
    → Digest
    → Digest
    → MemoryRepository
    → Answer (Run × Bool) × MemoryRepository × G
    → Type 0
IsAnswered project_id key_hash request_hash r (answer, after, g) =
    IsRefused r (answer, after, g)
    ⊎ ((run : Run) × (again : Bool) × (answer ≡ success (run, again))
        × (replay_for project_id key_hash request_hash after ≡ ok (run, true)))

module _ (sha256 : String → Digest) (atoi : String → Option ℕ) {G : Type 0}
    (gateway : StripeGateway G) (cipher : Cipher) (now : Time) (project_id connection_id : String)
    (amount : ℤ) (currency key : String) (request_hash : Digest) (r : MemoryRepository) where
  persist_intent-IsAnswered :
      (id : String) (asked : Try StripePaymentIntent × G) {fresh : Run}
      → replay_for project_id (sha256 key) request_hash r ≡ ok (fresh, false)
      → IsAnswered project_id (sha256 key) request_hash r (
          persist_intent sha256 atoi now project_id request_hash amount currency key id asked
            (next_run_id r).1)
  unfolding persist_intent next_run_id
  persist_intent-IsAnswered id (err e, g) h = inl (_, refl, inr refl)
  persist_intent-IsAnswered id (ok intent, g) h =
      let bundle = intent_bundle atoi now id (correlation_of sha256 key) amount currency intent in
      let granted =
        create_for-fresh now project_id (sha256 key) request_hash bundle r (next_run_id r).1 h refl
          refl in
      elim (Bool-cases (has_prefix intent.id "pi_")) [
        | inl named ↦
            rw (named, persist_intent)
              (inr (
                bundle.run,
                false,
                ap created_intent granted,
                create_for-replay_for now project_id (sha256 key) request_hash bundle
                    (next_run_id r).1 granted,
              ))
        | inr unnamed ↦ rw (unnamed, persist_intent) (inl (_, refl, inr refl))
      ]

  charge-IsAnswered :
      (secret : String) (g : G) {fresh : Run}
      → replay_for project_id (sha256 key) request_hash r ≡ ok (fresh, false)
      → IsAnswered project_id (sha256 key) request_hash r (
          charge sha256 atoi gateway cipher now project_id connection_id amount currency key
            request_hash secret r g)
  unfolding charge
  charge-IsAnswered secret g h = elim (Try-cases (validate_sandbox_secret secret)) [
    | inl (_, sandbox) ↦ rw (sandbox, charge) (persist_intent-IsAnswered _ _ h)
    | inr (e, live) ↦ rw (live, charge) (inl (_, refl, inl refl))
  ]

  charge_connection-IsAnswered :
      (connection : StripeConnection) (found : Bool) (g : G) {fresh : Run}
      → replay_for project_id (sha256 key) request_hash r ≡ ok (fresh, false)
      → IsAnswered project_id (sha256 key) request_hash r (
          charge_connection sha256 atoi gateway cipher now project_id connection_id amount currency
            key request_hash
            (connection, found)
            r
            g)
  unfolding charge_connection
  charge_connection-IsAnswered connection false g h = inl (_, refl, inl refl)
  charge_connection-IsAnswered connection true g h =
      elim (Bool-cases (connection.status == "connected")) [
        | inr closed ↦ rw (closed, charge_connection) (inl (_, refl, inl refl))
        | inl connected ↦
            elim (Try-cases
              (decrypt cipher connection.secret_ciphertext connection.stripe_account_id)) [
                | inl (secret, opened) ↦
                    rw (connected, opened, charge_connection) (charge-IsAnswered secret g h)
                | inr (e, shut) ↦ rw (connected, shut, charge_connection) (inl (_, refl, inl refl))
              ]
      ]

  replay_or_charge-IsAnswered :
      (g : G)
      → IsAnswered project_id (sha256 key) request_hash r (
          replay_or_charge sha256 atoi gateway cipher now project_id connection_id amount currency
            key request_hash r g)
  unfolding replay_or_charge find_and_charge
  replay_or_charge-IsAnswered g =
      elim (Try-cases (replay_for project_id (sha256 key) request_hash r)) [
        | inr (e, refused) ↦ rw (refused, replay_or_charge) (inl (_, refl, inl refl))
        | inl ((run, true), found) ↦ rw (found, replay_or_charge) (inr (run, true, refl, found))
        | inl ((run, false), fresh) ↦ elim (Bool-cases (is_uuid connection_id)) [
          | inl known ↦
              rw (fresh, known, replay_or_charge, find_and_charge)
                (charge_connection-IsAnswered (load_for project_id connection_id r).0
                  (load_for project_id connection_id r).1 g fresh)
          | inr unknown ↦
              rw (fresh, unknown, replay_or_charge, find_and_charge) (inl (_, refl, inl refl))
        ]
      ]

module _ (sha256 : String → Digest) (atoi : String → Option ℕ) {G : Type 0} (now later : Time)
    (project_id connection_id : String) (amount : ℤ) (currency key body : String)
    (r : MemoryRepository) (g g_later : G) where
  -- a request is refused, or it is granted, and granted alike when repeated
  abbrev pub IsOnce :
      (Time → MemoryRepository → G → Answer (Run × Bool) × MemoryRepository × G) → Type 0
  IsOnce request =
      IsRefused r (request now r g)
      ⊎ ((run : Run) × (again : Bool) × ((request now r g).0 ≡ success (run, again))
          × (request later (request now r g).1 g_later
              ≡ (success (run, true), (request now r g).1, g_later)))

  module _ (gateway : StripeGateway G) (cipher : Cipher) where
    replay_or_charge-replayed :
        (after : MemoryRepository) {run : Run}
        → replay_for project_id (sha256 key) (sha256 body) after ≡ ok (run, true)
        → replay_or_charge sha256 atoi gateway cipher later project_id connection_id amount currency
            key
            (sha256 body)
            after
            g_later
          ≡ (success (run, true), after, g_later)
    unfolding replay_or_charge
    replay_or_charge-replayed after found = rw (found, replay_or_charge) refl

    replay_or_charge-IsOnce : IsOnce (λ t.
        replay_or_charge sha256 atoi gateway cipher t project_id connection_id amount currency key
          (sha256 body))
    replay_or_charge-IsOnce =
        elim (replay_or_charge-IsAnswered sha256 atoi gateway cipher now project_id connection_id
          amount currency key (sha256 body) r g) [
            | inl refused ↦ inl refused
            | inr (run, again, granted, found) ↦
                inr (run, again, granted, replay_or_charge-replayed _ found)
          ]

    checked_payment_intent_run-IsOnce : IsOnce (λ t.
        checked_payment_intent_run sha256 atoi gateway cipher t project_id connection_id amount
          currency key body)
    unfolding checked_payment_intent_run
    checked_payment_intent_run-IsOnce = elim (Bool-cases (key == "")) [
      | inl missing ↦ rw (missing, checked_payment_intent_run) (inl (_, refl, inl refl))
      | inr present ↦ elim (Bool-cases (is_amount_refused amount)) [
        | inl refused ↦ rw (present, refused, checked_payment_intent_run) (inl (_, refl, inl refl))
        | inr payable ↦ elim (Bool-cases (is_currency currency)) [
          | inl known ↦
              rw (present, payable, known, checked_payment_intent_run) replay_or_charge-IsOnce
          | inr unknown ↦
              rw (present, payable, unknown, checked_payment_intent_run) (inl (_, refl, inl refl))
        ]
      ]
    ]

  -- A request for a run over a payment is refused, and then stores nothing but a run id that was drawn, or
  -- it is granted; and a granted request that is sent again, at any later time and with the gateway in
  -- any state, gets the run that the first one got, marked as replayed, and changes neither the
  -- repository nor the gateway, so that nothing is charged again.
  pub create_payment_intent_run-IsOnce :
      (service : StripeService G)
      → IsOnce (λ t.
        create_payment_intent_run sha256 atoi service t project_id connection_id amount currency key
          body)
  unfolding create_payment_intent_run
  create_payment_intent_run-IsOnce service = elim (Option-cases service.gateway) [
    | inl missing ↦ rw (missing, create_payment_intent_run) (inl (_, refl, inl refl))
    | inr (gateway, present) ↦ elim (Option-cases service.cipher) [
      | inl keyless ↦ rw (present, keyless, create_payment_intent_run) (inl (_, refl, inl refl))
      | inr (cipher, keyed) ↦
          subst IsOnce (λ i t s h. sym (is_checked gateway cipher present keyed t s h) i)
            (checked_payment_intent_run-IsOnce gateway cipher)
    ]
  ]
    where
      is_checked :
          (gateway : StripeGateway G) (cipher : Cipher)
          → service.gateway ≡ some gateway
          → service.cipher ≡ some cipher
          → (t : Time) (s : MemoryRepository) (h : G)
          → create_payment_intent_run sha256 atoi service t project_id connection_id amount currency
              key body s h
            ≡ checked_payment_intent_run sha256 atoi gateway cipher t project_id connection_id
                amount currency key body s h
      is_checked gateway cipher present keyed t s h =
          rw (present, keyed, create_payment_intent_run) refl
