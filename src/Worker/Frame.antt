-- ===== src/Worker/Frame.antt =====
-- A job leaves the outbox alone.
use parity_lab.Prelude.{
  ℕ, suc, String, Bytes, List, [], ◌∷◌, Option, none, some, string_eq, ◌≡◌, refl, ◌∙◌, arith, inl,
  inr, Option-cases,
}
use parity_lab.Prelude.Table.{lookup, get_or}
use parity_lab.Failure.{Failure, Try, err, Try-cases}
use parity_lab.Domain.{Time, Fault, Run}
use parity_lab.Engine.Records.{Digest, OutboxMessage, VerificationEvidence, WebhookReceipt}
use parity_lab.Engine.Memory.{MemoryRepository}
use parity_lab.Engine.Memory.Runs.{run_of}
use parity_lab.Engine.Memory.Evidence.{apply_reference_merchant_effect, record_verification}
use parity_lab.Engine.Memory.Webhooks.{
  project_match, decide_match, process_receipt, process_stripe_webhook,
}
use parity_lab.Verification.Signing.{Delivery}
use parity_lab.Verification.Relay.{
  Target, Context, Result, planned, envelope, deliver_from, execute,
}
use parity_lab.Worker.Jobs.{
  repository_target, base_delivery, evidence_of, job_fault, verify_run, verify_fields,
  process_verification, process_stripe_job, process, fields_of,
}

module _ {S : Type 0} (target : Target S) (ctx : Context) (P : S → Type 0)
    (keeps : (d : Delivery) (s : S) → P s → P (target d s).1) where
  deliver_from-keeps :
      (n : ℕ) (ds : List Delivery) (result : Result) (s : S)
      → P s
      → P (deliver_from target ctx n ds result s).1
  unfolding deliver_from
  deliver_from-keeps n [] result s p = p
  deliver_from-keeps n (d ∷ ds) result s p = elim (Option-cases (ctx n)) [
    | inr (e, ended) ↦ rw (ended, deliver_from) p
    | inl live ↦ elim (Try-cases (target d s).0) [
      | inl (receipt, answered) ↦
          rw (live, deliver_from, answered) (deliver_from-keeps (suc n) ds _ _ (keeps d s p))
      | inr (e, broken) ↦ rw (live, deliver_from, broken) (keeps d s p)
    ]
  ]

  execute-keeps :
      (hmac : String → String → Bytes) (secret : String) (base : Delivery) (fault : Fault) (s : S)
      → P s
      → P (execute target ctx hmac secret base fault s).1
  unfolding execute
  execute-keeps hmac secret base fault s p =
      elim (Try-cases (planned hmac secret (envelope hmac secret base) fault)) [
        | inl ((deliveries, attempts), plan) ↦
            rw (plan, execute) (deliver_from-keeps 0 deliveries _ s p)
        | inr (e, unsupported) ↦ rw (unsupported, execute) p
      ]

abbrev SameOutbox : MemoryRepository → MemoryRepository → Type 0
SameOutbox r s = s.outbox ≡ r.outbox

apply_effect-outbox :
    (effect_id : String) (sequence : ℕ) (r : MemoryRepository)
    → (apply_reference_merchant_effect effect_id sequence r).1.outbox ≡ r.outbox
unfolding apply_reference_merchant_effect
apply_effect-outbox effect_id sequence r = ground arith

repository_target-outbox :
    (hmac : String → String → Bytes) (secret : String) (d : Delivery) (r : MemoryRepository)
    → (repository_target hmac secret d r).1.outbox ≡ r.outbox
unfolding repository_target
repository_target-outbox hmac secret d r =
    ground (arith, apply_effect-outbox d.effect_id d.sequence r)

record_verification-outbox :
    (evidence : VerificationEvidence) (r : MemoryRepository)
    → (record_verification evidence r).1.outbox ≡ r.outbox
unfolding record_verification
record_verification-outbox evidence r = ground arith

module _ (sha256 : String → Digest) (now : Time) (event_id : String) where
  decide_match-outbox :
      (receipt : WebhookReceipt) (objects correlated : List String) (r : MemoryRepository)
      → (decide_match sha256 now event_id receipt objects correlated r).1.outbox ≡ r.outbox
  unfolding decide_match project_match
  decide_match-outbox receipt [] correlated r = refl
  decide_match-outbox receipt (o ∷ objects) [] r = refl
  decide_match-outbox receipt (o ∷ objects) (run_id ∷ []) r = refl
  decide_match-outbox receipt (o ∷ objects) (c ∷ c' ∷ correlated) r = refl

  process_receipt-outbox :
      (receipt : WebhookReceipt) (r : MemoryRepository)
      → (process_receipt sha256 now event_id receipt r).1.outbox ≡ r.outbox
  unfolding process_receipt
  process_receipt-outbox receipt r = ground (arith, decide_match-outbox receipt)

  process_stripe_webhook-outbox :
      (r : MemoryRepository) → (process_stripe_webhook sha256 now event_id r).1.outbox ≡ r.outbox
  unfolding process_stripe_webhook
  process_stripe_webhook-outbox r = elim (Option-cases (lookup event_id r.webhook_results)) [
    | inr (previous, found) ↦ rw (found, process_stripe_webhook)
    | inl fresh ↦ elim (Option-cases (lookup event_id r.webhooks)) [
      | inl unknown ↦ rw (fresh, process_stripe_webhook, unknown)
      | inr (receipt, seen) ↦
          rw (fresh, process_stripe_webhook, seen) (process_receipt-outbox receipt r)
    ]
  ]

module _ (hmac : String → String → Bytes) (sha256 : String → Digest) (secret : String) where
  verify_run-outbox :
      (ctx : Context) (run : Run) (fault : Fault) (r : MemoryRepository)
      → (verify_run hmac sha256 secret ctx run fault r).1.outbox ≡ r.outbox
  unfolding verify_run
  verify_run-outbox ctx run fault r =
      by_outcome
        (execute (repository_target hmac secret) ctx hmac secret
          (base_delivery hmac sha256 secret run) fault r)
        (execute-keeps (repository_target hmac secret) ctx (SameOutbox r)
          (λ d s same. repository_target-outbox hmac secret d s ∙ same) hmac secret
          (base_delivery hmac sha256 secret run) fault r refl)
    where
      by_outcome :
          (out : (Result × Option Failure) × MemoryRepository)
          → SameOutbox r out.1
          → (elim out.0.1 as (λ _. Try (Unit {0}) × MemoryRepository) [
            | some e ↦ (err e, out.1)
            | none ↦ record_verification (evidence_of run.id fault out.0.0) out.1
          ]).1.outbox
            ≡ r.outbox
      by_outcome ((result, some e), s) same = same
      by_outcome ((result, none), s) same =
          record_verification-outbox (evidence_of run.id fault result) s ∙ same

  process_verification-outbox :
      (ctx : Context) (job : OutboxMessage) (r : MemoryRepository)
      → (process_verification hmac sha256 secret ctx job r).1.outbox ≡ r.outbox
  unfolding process_verification verify_fields
  process_verification-outbox ctx job r = elim (Option-cases (fields_of job.payload)) [
    | inl bad ↦ rw (bad, process_verification)
    | inr (fields, read) ↦
        rw (read, process_verification)
          (ground (
            arith,
            verify_run-outbox ctx (run_of (get_or "run_id" "" fields) r).0
                (job_fault fields (run_of (get_or "run_id" "" fields) r).0) r,
          ))
  ]

  process_stripe_job-outbox :
      (now : Time) (job : OutboxMessage) (r : MemoryRepository)
      → (process_stripe_job hmac sha256 secret now job r).1.outbox ≡ r.outbox
  unfolding process_stripe_job
  process_stripe_job-outbox now job r = elim (Option-cases (fields_of job.payload)) [
    | inl bad ↦ rw (bad, process_stripe_job)
    | inr (fields, read) ↦
        rw (read, process_stripe_job)
          (ground (
            arith,
            process_stripe_webhook-outbox sha256 now (get_or "stripe_event_id" "" fields) r,
          ))
  ]

  pub process-outbox :
      (ctx : Context) (now : Time) (job : OutboxMessage) (r : MemoryRepository)
      → (process hmac sha256 secret ctx now job r).1.outbox ≡ r.outbox
  unfolding process
  process-outbox ctx now job r =
      ground (arith, process_verification-outbox ctx job r, process_stripe_job-outbox now job r)
