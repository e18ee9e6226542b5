-- ===== src/Engine/Stripe/Intents.antt =====
-- stripe_service.go: the values of a run over a PaymentIntent: the checks of the request, the
-- parameters that the gateway gets, and the bundle.
use Prim.Native.Char.{Char, code}
use parity_lab.Prelude.{
  ℕ, zero, suc, String, Bool, true, false, List, [], ◌∷◌, ◌++◌, Option, ltb, leb, num_eq, ◌==◌,
  string_eq, if◌then◌else◌, ◌&&◌, ◌||◌, take, length, map,
}
use parity_lab.Prelude.Text.{◌<>◌, decimal}
use parity_lab.Prelude.Text.Numerals.{ℤ, pos, negsuc, format_int}
use parity_lab.Prelude.Hex.{hex_encode}
use parity_lab.Prelude.Table.{insert}
use parity_lab.Failure.{
  Failure, Try, ok, err, idempotency_conflict, webhook_conflict, account_exists, permanent, message,
}
use parity_lab.Domain.{Time, duplicate, Run, Event, Assertion, Report, Value, text, number}
use parity_lab.Domain.Errors.{ApiError, api_error, internal}
use parity_lab.Engine.Records.{Digest, RunBundle, StripeConnection}
use parity_lab.Engine.Memory.{MemoryRepository}
use parity_lab.Engine.Memory.Connections.{stripe_connection, stripe_connection_for_project}
use parity_lab.Engine.Scenarios.{seeded_scenarios, find_scenario}
use parity_lab.Engine.Timeline.{build_report, passed_count}
use parity_lab.Engine.Bundle.{build_run_bundle}
use parity_lab.Engine.Service.{Answer, success, failure, number_from_run_id, key_in_use}
use parity_lab.Engine.Service.Overview.{found_or_zero}
use parity_lab.Engine.Stripe.{StripePaymentIntent, StripePaymentIntentParams}

-- a text of one character for each test
unfoldable pub matches : List (Char → Bool) → String → Bool
matches [] String.[] = true
matches [] (String.◌∷◌ c s) = false
matches (p ∷ ps) String.[] = false
matches (p ∷ ps) (String.◌∷◌ c s) = p c && matches ps s

abbrev pub is_between : ℕ → ℕ → Char → Bool
is_between low high c = leb low (code c) && leb (code c) high

abbrev pub is_lower : Char → Bool
is_lower c = is_between b'a' b'z' c

-- `currencyPattern`
abbrev pub is_currency : String → Bool
is_currency s = matches (is_lower ∷ is_lower ∷ is_lower ∷ []) s

abbrev pub is_hex_digit : Char → Bool
is_hex_digit c = is_between b'0' b'9' c || is_between b'a' b'f' c

abbrev pub is_dash : Char → Bool
is_dash c = num_eq (code c) b'-'

abbrev pub is_version : Char → Bool
is_version c = is_between b'1' b'8' c

abbrev pub is_variant : Char → Bool
is_variant c = is_between b'8' b'9' c || is_between b'a' b'b' c

abbrev pub times : ℕ → (Char → Bool) → List (Char → Bool) → List (Char → Bool)
times zero p rest = rest
times (suc n) p rest = p ∷ times n p rest

-- `uuidPattern`
abbrev pub is_uuid : String → Bool
is_uuid s =
    matches
      (times 8 is_hex_digit (
        is_dash
        ∷ times 4 is_hex_digit (
            is_dash
            ∷ is_version
            ∷ times 3 is_hex_digit (
                is_dash ∷ is_variant ∷ times 3 is_hex_digit (is_dash ∷ times 12 is_hex_digit [])))))
      s

-- `amountMinor <= 0 || amountMinor > 99_999_999`
abbrev pub is_amount_refused : ℤ → Bool
is_amount_refused (pos zero) = true
is_amount_refused (pos (suc n)) = ltb 99999999 (suc n)
is_amount_refused (negsuc n) = true

-- the number that the evidence shows, of an amount that was not refused
abbrev pub amount_value : ℤ → Value
amount_value (pos n) = number n
amount_value (negsuc n) = number 0

abbrev pub int_eq : ℤ → ℤ → Bool
int_eq (pos m) (pos n) = num_eq m n
int_eq (pos m) (negsuc n) = false
int_eq (negsuc m) (pos n) = false
int_eq (negsuc m) (negsuc n) = num_eq m n

abbrev pub with_evidence : ℤ → String → String → String → Event → Event
with_evidence amount currency intent_id correlation_id event = record event {
  evidence = insert "paritylab_correlation_id" (text correlation_id) (
      insert "stripe_payment_intent_id" (text intent_id) (
        insert "currency" (text currency)
          (insert "amount_minor" (amount_value amount) event.evidence)));
}

abbrev pub minor_units_assertion : ℤ → String → StripePaymentIntent → Assertion
minor_units_assertion amount currency intent = record {
  id = "assert_minor_units";
  name = "Amount persisted in integer minor units";
  passed = int_eq intent.amount amount && intent.currency == currency;
  expected = format_int amount <> " " <> currency;
  observed = format_int intent.amount <> " " <> intent.currency;
  evidence = intent.id;
}

abbrev pub with_assertion : Assertion → Report → Report
with_assertion assertion report =
    let assertions = report.assertions ++ (assertion ∷ []) in
    record report {
      assertions = assertions;
      summary =
          decimal (passed_count assertions)
          <> " of "
          <> decimal (length assertions)
          <> " deterministic assertions passed.";
    }

-- `loadConnection`, as the project selects it
abbrev pub load_for : String → String → MemoryRepository → StripeConnection × Bool
load_for project_id id r =
    if project_id == ""
    then stripe_connection id r
    else stripe_connection_for_project project_id id r

abbrev pub intent_failed : ApiError
intent_failed =
    api_error "api_error" "stripe_payment_intent_failed"
      "Stripe could not create the sandbox PaymentIntent." "" 502

abbrev pub intent_error : Failure → ApiError
intent_error idempotency_conflict = key_in_use
intent_error webhook_conflict =
    internal "persistence_failed" "The Stripe run could not be durably persisted."
intent_error account_exists =
    internal "persistence_failed" "The Stripe run could not be durably persisted."
intent_error (permanent code) =
    internal "persistence_failed" "The Stripe run could not be durably persisted."
intent_error (message words) =
    internal "persistence_failed" "The Stripe run could not be durably persisted."

abbrev pub created_intent : Try (Run × Bool) → Answer (Run × Bool)
created_intent (ok run) = success run
created_intent (err e) = failure (intent_error e)

module _ (sha256 : String → Digest) where
  abbrev pub stripe_digest : String → Digest
  stripe_digest idempotency_key = sha256 ("paritylab:stripe:" <> idempotency_key)

  abbrev pub correlation_of : String → String
  correlation_of idempotency_key = "plcorr_" <> hex_encode (take 12 (stripe_digest idempotency_key))

  abbrev pub params_of : ℤ → String → String → StripePaymentIntentParams
  params_of amount currency idempotency_key = record {
    amount_minor = amount;
    currency = currency;
    idempotency_key = "pl_" <> hex_encode (stripe_digest idempotency_key);
    metadata =
        ("paritylab_correlation_id", correlation_of idempotency_key)
        ∷ ("paritylab_scenario_id", "checkout-duplicate")
        ∷ [];
  }

module _ (atoi : String → Option ℕ) (now : Time) where
  -- the bundle of a run over an intent
  unfoldable pub intent_bundle : String → String → ℤ → String → StripePaymentIntent → RunBundle
  unfolding number_from_run_id build_run_bundle build_report passed_count
  intent_bundle id correlation_id amount currency intent =
      let built =
        build_run_bundle id (number_from_run_id atoi id)
          (found_or_zero (find_scenario seeded_scenarios "checkout-duplicate")) duplicate now in
      let run : Run = record built.run { stripe_object_id = intent.id } in
      record built {
        run = run;
        events = map (with_evidence amount currency intent.id correlation_id) built.events;
        report =
            with_assertion (minor_units_assertion amount currency intent)
              (build_report run duplicate);
        outbox_topic = "verification.run.queued";
        stripe_correlation_id = correlation_id;
      }
