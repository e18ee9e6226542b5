-- ===== src/Worker/Convergence.antt =====
-- A verification job passes for every fault that the relay supports.
use parity_lab.Prelude.{
  ℕ, String, Bytes, Bool, true, false, Option, none, some, ◌==◌, string_eq, eq_iff, if◌then◌else◌,
  ◌||◌, ◌≡◌, refl, sym, ap, subst, ◌∙◌, ◌≢◌, arith,
}
use parity_lab.Prelude.Table.{lookup, insert, has, lookup-insert_self, lookup-insert}
use parity_lab.Prelude.Text.{◌<>◌}
use parity_lab.Failure.{Failure, Try, ok, err}
use parity_lab.Domain.{Fault, Run, Report, no_fault, duplicate, reorder, timeout, tamper, other}
use parity_lab.Engine.Records.{Digest, VerificationEvidence, has_assertion}
use parity_lab.Engine.Memory.{MemoryRepository}
use parity_lab.Engine.Memory.Evidence.{
  apply_reference_merchant_effect, record_verification, with_evidence,
}
use parity_lab.Engine.Memory.Evidence.Once.{apply_reference_merchant_effect_lem}
use parity_lab.Verification.Signing.{Delivery, Receipt, IsByteMac, signing_input}
use parity_lab.Verification.Merchant.{authentic}
use parity_lab.Verification.Relay.{Context, Result, execute, envelope, tampered}
use parity_lab.Verification.Relay.Faults.{
  AppliesOnce, Converges, IsSupported, execute-converges, is_tamper, tally, expected_tally,
}
use parity_lab.Worker.Jobs.{repository_target, base_delivery, evidence_of, passes, verify_run}

-- the effects that have been applied
abbrev pub has_effect : MemoryRepository → String → Bool
has_effect r k = has k r.merchant_effects

-- a state with the reports of `r`
abbrev KeepsReports : MemoryRepository → MemoryRepository → Type 0
KeepsReports r s = s.reports ≡ r.reports

apply_effect-reports :
    (effect_id : String) (sequence : ℕ) (r : MemoryRepository)
    → (apply_reference_merchant_effect effect_id sequence r).1.reports ≡ r.reports
unfolding apply_reference_merchant_effect
apply_effect-reports effect_id sequence r = ground arith

apply_effect-effects :
    (effect_id : String) (sequence : ℕ) (r : MemoryRepository) (k : String)
    → has_effect (apply_reference_merchant_effect effect_id sequence r).1 k
      ≡ (effect_id == k || has_effect r k)
unfolding apply_reference_merchant_effect
apply_effect-effects effect_id sequence r k =
    ground (arith, lookup-insert effect_id k sequence r.merchant_effects, eq_iff effect_id k)

abbrev refused_receipt : Receipt
refused_receipt = record {
  accepted = false;
  duplicate = false;
  signature_valid = false;
  business_effects = 0;
}

abbrev accepted_receipt : Bool → Receipt
accepted_receipt again = record {
  accepted = true;
  duplicate = again;
  signature_valid = true;
  business_effects = 1;
}

module _ (hmac : String → String → Bytes) (secret : String) where
  refuses :
      (d : Delivery) (s : MemoryRepository)
      → authentic hmac secret d ≡ false
      → repository_target hmac secret d s ≡ (ok refused_receipt, s)
  unfolding repository_target
  refuses d s h = ground (arith, h)

  applies :
      (d : Delivery) (s : MemoryRepository)
      → authentic hmac secret d ≡ true
      → repository_target hmac secret d s ≡ (
        ok (accepted_receipt (has_effect s d.effect_id)),
        (apply_reference_merchant_effect d.effect_id d.sequence s).1,
      )
  unfolding repository_target
  applies d s h =
      ground (arith, h, (apply_reference_merchant_effect_lem d.effect_id d.sequence s).0)

  repository-AppliesOnce :
      (r : MemoryRepository)
      → AppliesOnce hmac secret
          (repository_target hmac secret)
          (KeepsReports r)
          has_effect
          (λ _. 1)
          (λ _. 0)
  repository-AppliesOnce r = record {
    refuses = λ d s h. (refused_receipt, refuses d s h, refl, refl, refl);
    applies = λ d s c h. (
      accepted_receipt (has_effect s d.effect_id),
      (apply_reference_merchant_effect d.effect_id d.sequence s).1,
      applies d s h,
      apply_effect-reports d.effect_id d.sequence s ∙ c,
      refl,
      refl,
      refl,
      apply_effect-effects d.effect_id d.sequence s,
    );
  }

some_not_none : {e : Failure} → some e ≢ none
some_not_none h = ground (arith, h)

-- every fault's counters pass
passes_lem :
    (fault : Fault) (result : Result) (again : Bool)
    → IsSupported fault
    → tally result ≡ expected_tally fault again
    → result.business_effects ≡ (if is_tamper fault then 0 else 1)
    → passes result fault ≡ true
unfolding passes
passes_lem no_fault result again s h e = ground arith
passes_lem duplicate result again s h e = ground arith
passes_lem reorder result again s h e = ground arith
passes_lem timeout result again s h e = ground arith
passes_lem tamper result again s h e = ground arith
passes_lem (other x) result again s h e = absurd s

-- what a verification job leaves behind: the run's report has the evidence, which passed, and the
-- effect of the run has been applied, unless the delivery was tampered with; no other effect changed
pub record IsVerified (run : Run) (fault : Fault) (report : Report) (r : MemoryRepository)
    (out : Try (Unit {0}) × MemoryRepository) : Type 0 where
  pub no_error : out.0 ≡ ok tt
  pub result : Result
  pub recorded :
      lookup run.id out.1.reports ≡ some (with_evidence (evidence_of run.id fault result) report)
  pub evidence_passed : (evidence_of run.id fault result).assertion.passed ≡ true
  pub effect :
      (k : String)
      → has_effect out.1 k ≡ (
          if is_tamper fault
          then has_effect r k
          else "merchant_effect_" <> run.id == k || has_effect r k)

record_fresh :
    (evidence : VerificationEvidence) (report : Report) (r : MemoryRepository)
    → lookup evidence.run_id r.reports ≡ some report
    → has_assertion report.assertions evidence.assertion.id ≡ false
    → record_verification evidence r ≡ (
      ok tt,
      record r { reports = insert evidence.run_id (with_evidence evidence report) r.reports },
    )
unfolding record_verification
record_fresh evidence report r found fresh = rw (found, record_verification, fresh)

-- what `verify_run` does with the outcome of the relay
abbrev conclude :
    String
    → Fault
    → (Result × Option Failure) × MemoryRepository
    → Try (Unit {0}) × MemoryRepository
conclude run_id fault ((result, none), r) = record_verification (evidence_of run_id fault result) r
conclude run_id fault ((result, some e), r) = (err e, r)

module _ (run : Run) (fault : Fault) (report : Report) (r : MemoryRepository)
    (supported : IsSupported fault) (found : lookup run.id r.reports ≡ some report)
    (fresh : has_assertion report.assertions "assert_reference_merchant_exactly_once" ≡ false) where
  conclude-IsVerified :
      (out : (Result × Option Failure) × MemoryRepository)
      → Converges
          (KeepsReports r)
          has_effect
          (λ _. 1)
          (λ _. 0)
          ("merchant_effect_" <> run.id)
          fault
          r
          out
      → IsVerified run fault report r (conclude run.id fault out)
  unfolding evidence_of
  conclude-IsVerified ((result, some e), s) c = absurd (some_not_none c.no_error)
  conclude-IsVerified ((result, none), s) c =
      subst (IsVerified run fault report r)
        (sym (
          record_fresh (evidence_of run.id fault result) report s
            (ap (lookup run.id) c.kept ∙ found) fresh))
        (record {
          no_error = refl;
          result = result;
          recorded = lookup-insert_self run.id _ s.reports;
          evidence_passed =
              ap (passes result) c.same_fault
              ∙ passes_lem fault result (has_effect r ("merchant_effect_" <> run.id)) supported
                  c.counts c.shown;
          effect = c.effect;
        })

  conclude_lem :
      (hmac : String → String → Bytes) (sha256 : String → Digest) (secret : String) (ctx : Context)
      → verify_run hmac sha256 secret ctx run fault r
        ≡ conclude run.id fault (
            execute
              (repository_target hmac secret)
              ctx
              hmac
              secret
              (base_delivery hmac sha256 secret run)
              fault
              r)
  unfolding verify_run
  conclude_lem hmac sha256 secret ctx = by_failure (
      execute (repository_target hmac secret) ctx hmac secret (base_delivery hmac sha256 secret run)
        fault r)
    where
      by_failure :
          (out : (Result × Option Failure) × MemoryRepository)
          → Path
              (Try (Unit {0}) × MemoryRepository)
              (elim out.0.1 [
                | some e ↦ (err e, out.1)
                | none ↦ record_verification (evidence_of run.id fault out.0.0) out.1
              ])
              (conclude run.id fault out)
      by_failure ((result, none), s) = refl
      by_failure ((result, some e), s) = refl

module _ (hmac : String → String → Bytes) (sha256 : String → Digest) (secret : String) where
  -- A verification job that has found its run passes, whatever the supported fault and whatever ran before:
  -- it reports no error, adds passing evidence to the run's report, and the run's effect has been
  -- applied once, or not at all after tampering. The context is live, the report has no evidence
  -- yet, and the MACs of the envelope and of its tampered copy differ.
  pub verify_run-IsVerified :
      (ctx : Context) (run : Run) (fault : Fault) (report : Report) (r : MemoryRepository)
      → IsByteMac hmac secret
      → ((n : ℕ) → ctx n ≡ none)
      → IsSupported fault
      → lookup run.id r.reports ≡ some report
      → has_assertion report.assertions "assert_reference_merchant_exactly_once" ≡ false
      → hmac secret
          (signing_input (tampered (envelope hmac secret (base_delivery hmac sha256 secret run))))
        ≢ hmac secret (signing_input (envelope hmac secret (base_delivery hmac sha256 secret run)))
      → IsVerified run fault report r (verify_run hmac sha256 secret ctx run fault r)
  unfolding base_delivery
  verify_run-IsVerified ctx run fault report r bytes live supported found fresh ne =
      let c =
        execute-converges hmac secret bytes (repository_target hmac secret) ctx (KeepsReports r)
          has_effect (λ _. 1) (λ _. 0) (repository-AppliesOnce hmac secret r) live
          (base_delivery hmac sha256 secret run) fault r supported refl ne in
      subst (IsVerified run fault report r)
        (sym (conclude_lem run fault report r supported found fresh hmac sha256 secret ctx))
        (conclude-IsVerified run fault report r supported found fresh _ c)
