-- ===== src/Engine/Memory/Evidence.antt =====
-- memory_repository.go: `RecordVerification` and `ApplyReferenceMerchantEffect`.
pub mod Once
use parity_lab.Prelude.{
  ℕ, String, Bool, true, false, [], ◌∷◌, ◌++◌, none, some, string_eq, if◌then◌else◌, ltb,
}
use parity_lab.Prelude.Table.{lookup, insert}
use parity_lab.Failure.{Try, ok, err, message}
use parity_lab.Domain.{Report}
use parity_lab.Engine.Records.{VerificationEvidence, has_assertion}
use parity_lab.Engine.Memory.{MemoryRepository}
use parity_lab.Engine.Memory.Webhooks.{verification_summary}

-- the report with one more assertion
unfoldable pub with_evidence : VerificationEvidence → Report → Report
with_evidence evidence report =
    let assertions = report.assertions ++ evidence.assertion ∷ [] in
    record report { assertions = assertions; summary = verification_summary assertions }

unfoldable pub record_verification :
    VerificationEvidence → MemoryRepository → Try (Unit {0}) × MemoryRepository
unfolding with_evidence
record_verification evidence r = elim (lookup evidence.run_id r.reports) [
  | none ↦ (err (message "run report not found"), r)
  | some report ↦ if has_assertion report.assertions evidence.assertion.id then (ok tt, r) else (
    ok tt,
    record r { reports = insert evidence.run_id (with_evidence evidence report) r.reports },
  )
]

unfoldable pub apply_reference_merchant_effect :
    String → ℕ → MemoryRepository → Try Bool × MemoryRepository
apply_reference_merchant_effect effect_id sequence r = elim (lookup effect_id r.merchant_effects) [
  | none ↦ (ok false, record r { merchant_effects = insert effect_id sequence r.merchant_effects })
  | some previous ↦ (
    ok true,
    if ltb previous sequence
        then record r { merchant_effects = insert effect_id sequence r.merchant_effects }
        else r,
  )
]
