-- ===== src/Worker/Jobs.antt =====
-- reference_merchant.go and the jobs of worker.go: `Deliver` of `RepositoryMerchant`, `process`,
-- `processVerification` and `processStripeWebhook`.
use parity_lab.Prelude.{
  String, Bytes, Bool, true, false, Option, none, some, ◌==◌, string_eq, num_eq, if◌then◌else◌,
  ◌&&◌, ◌||◌, not, leb,
}
use parity_lab.Prelude.Table.{Table, get_or}
use parity_lab.Prelude.Text.{◌<>◌, decimal}
use parity_lab.Prelude.Hex.{hex_encode}
use parity_lab.Failure.{Try, ok, err, message, permanent}
use parity_lab.Domain.{
  Time, Fault, no_fault, duplicate, reorder, timeout, tamper, other, fault_text, fault_of, Run,
}
use parity_lab.Engine.Records.{
  Digest, RawMessage, malformed, object, OutboxMessage, VerificationEvidence,
}
use parity_lab.Engine.Memory.{MemoryRepository}
use parity_lab.Engine.Memory.Runs.{run_of}
use parity_lab.Engine.Memory.Evidence.{record_verification, apply_reference_merchant_effect}
use parity_lab.Engine.Memory.Webhooks.{process_stripe_webhook}
use parity_lab.Verification.Signing.{Delivery, contract_version}
use parity_lab.Verification.Merchant.{authentic}
use parity_lab.Verification.Relay.{Target, Context, Result, execute}

-- the fields of a payload
abbrev pub fields_of : RawMessage → Option (Table String String)
fields_of malformed = none
fields_of (object fields) = some fields

-- `passed` and `expected`, by the fault of the result
unfoldable pub passes : Result → Fault → Bool
passes result duplicate =
    num_eq result.business_effects 1 && leb 1 result.duplicates && num_eq result.rejected 0
passes result reorder =
    num_eq result.business_effects 1 && leb 1 result.duplicates && num_eq result.rejected 0
passes result timeout = num_eq result.business_effects 1 && num_eq result.rejected 0
passes result tamper = num_eq result.business_effects 0 && leb 1 result.rejected
passes result no_fault = num_eq result.business_effects 1 && num_eq result.rejected 0
passes result (other s) = num_eq result.business_effects 1 && num_eq result.rejected 0

unfoldable pub expected_text : Fault → String
expected_text duplicate = "one business effect with duplicate suppression"
expected_text reorder = "one business effect with duplicate suppression"
expected_text timeout = "one business effect after retry"
expected_text tamper = "blocked before business effect"
expected_text no_fault = "one business effect"
expected_text (other s) = "one business effect"

unfoldable pub observed_text : Result → String
observed_text result =
    "fault="
    <> fault_text result.fault
    <> " attempts="
    <> decimal result.attempts
    <> " effects="
    <> decimal result.business_effects
    <> " duplicates="
    <> decimal result.duplicates
    <> " rejected="
    <> decimal result.rejected

-- the evidence of a run of the relay
unfoldable pub evidence_of : String → Fault → Result → VerificationEvidence
unfolding passes expected_text observed_text
evidence_of run_id fault result = record {
  run_id = run_id;
  checkpoint = "reference-merchant-v1";
  assertion = record {
    id = "assert_reference_merchant_exactly_once";
    name = "Verification relay converged safely";
    passed = passes result result.fault;
    expected = expected_text result.fault;
    observed = observed_text result;
    evidence = contract_version <> ":" <> fault_text fault;
  };
}

-- the fault of a job: the payload's, the run's, or a duplicate
unfoldable pub job_fault : Table String String → Run → Fault
job_fault fields run =
    let wanted = get_or "verification_fault" "" fields in
    if not (wanted == "")
    then fault_of wanted
    else if not (fault_text run.fault == "")
    then run.fault
    else duplicate

-- `Deliver`
module _ (hmac : String → String → Bytes) (secret : String) where
  unfoldable pub repository_target : Target MemoryRepository
  repository_target d r =
      if not (authentic hmac secret d)
      then (
        ok (record {
          accepted = false;
          duplicate = false;
          signature_valid = false;
          business_effects = 0;
        }),
        r,
      )
      else (let (answer, r') = apply_reference_merchant_effect d.effect_id d.sequence r in
          elim answer [
            | err e ↦ (err e, r')
            | ok again ↦ (
              ok (record {
                accepted = true;
                duplicate = again;
                signature_valid = true;
                business_effects = 1;
              }),
              r',
            )
          ])

module _ (hmac : String → String → Bytes) (sha256 : String → Digest) (secret : String) where
  -- the delivery that the relay is given
  unfoldable pub base_delivery : Run → Delivery
  base_delivery run = record {
    version = "";
    event_id = "verify_" <> run.id;
    effect_id = "merchant_effect_" <> run.id;
    run_id = run.id;
    sequence = 1;
    payload_hash =
        hex_encode (sha256 (run.id <> "\n" <> run.stripe_object_id <> "\n" <> run.environment));
    signature = "";
  }

  -- a run that was found, with the fault chosen
  unfoldable pub verify_run :
      Context → Run → Fault → MemoryRepository → Try (Unit {0}) × MemoryRepository
  unfolding base_delivery evidence_of
  verify_run ctx run fault r =
      let ((result, failure), r') =
        execute (repository_target hmac secret) ctx hmac secret (base_delivery run) fault r in
      elim failure [
        | some e ↦ (err e, r')
        | none ↦ record_verification (evidence_of run.id fault result) r'
      ]

  -- a payload that was read
  unfoldable pub verify_fields :
      Context → Table String String → MemoryRepository → Try (Unit {0}) × MemoryRepository
  unfolding verify_run job_fault
  verify_fields ctx fields r =
      let run_id = get_or "run_id" "" fields in
      let (run, found) = run_of run_id r in
      if run_id == ""
      then (err (message "invalid verification job payload"), r)
      else if not found
      then (err (message "verification run unavailable"), r)
      else verify_run ctx run (job_fault fields run) r

  unfoldable pub process_verification :
      Context → OutboxMessage → MemoryRepository → Try (Unit {0}) × MemoryRepository
  unfolding verify_fields
  process_verification ctx job r = elim (fields_of job.payload) [
    | none ↦ (err (message "invalid verification job payload"), r)
    | some fields ↦ verify_fields ctx fields r
  ]

  -- `now` is the clock that a webhook without a creation time takes.
  unfoldable pub process_stripe_job :
      Time → OutboxMessage → MemoryRepository → Try (Unit {0}) × MemoryRepository
  process_stripe_job now job r = elim (fields_of job.payload) [
    | none ↦ (err (permanent "webhook_job_invalid"), r)
    | some fields ↦
        let event_id = get_or "stripe_event_id" "" fields in
        let (answer, r') = process_stripe_webhook sha256 now event_id r in
        if event_id == ""
          || get_or "event_type" "" fields == ""
          || not (event_id == job.aggregate_id)
        then (err (permanent "webhook_job_invalid"), r)
        else (elim answer [ err e ↦ err e | ok result ↦ ok tt ], r')
  ]

  unfoldable pub process :
      Context → Time → OutboxMessage → MemoryRepository → Try (Unit {0}) × MemoryRepository
  unfolding process_verification process_stripe_job
  process ctx now job r =
      if job.topic == "run.persisted"
      then process_verification ctx job r
      else if job.topic == "verification.run.queued"
      then process_verification ctx job r
      else if job.topic == "stripe.webhook.received"
      then process_stripe_job now job r
      else (ok tt, r)
