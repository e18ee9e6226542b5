-- ===== src/Engine/Memory/Evidence/Once.antt =====
-- Evidence enters a report once, and an effect counts once.
use parity_lab.Prelude.{
  ℕ, String, true, List, [], ◌∷◌, ◌++◌, some, string_eq, eq_iff, if◌then◌else◌, ltb, ◌≡◌, refl, ap,
  ◌∙◌, ◌≢◌, arith, inl, inr, Option-cases, Bool-cases, ◌||◌,
}
use parity_lab.Prelude.Table.{
  lookup, get_or, has, lookup-insert, lookup-insert_self, lookup-insert_ne,
}
use parity_lab.Failure.{ok}
use parity_lab.Domain.{Report, Assertion}
use parity_lab.Engine.Records.{VerificationEvidence, has_assertion}
use parity_lab.Engine.Memory.{MemoryRepository}
use parity_lab.Engine.Memory.Evidence.{
  with_evidence, record_verification, apply_reference_merchant_effect,
}

has_assertion-append :
    (as_ bs : List Assertion) (id : String)
    → has_assertion (as_ ++ bs) id ≡ (has_assertion as_ id || has_assertion bs id)
unfolding has_assertion
has_assertion-append [] bs id = refl
has_assertion-append (a ∷ as_) bs id = ground (arith, has_assertion-append as_ bs id)

-- the report of the run has an assertion with the id of the evidence
IsHeld : VerificationEvidence → MemoryRepository → Type 0
IsHeld evidence r =
    (report : Report) × (lookup evidence.run_id r.reports ≡ some report)
    × (has_assertion report.assertions evidence.assertion.id ≡ true)

record_verification-held :
    (evidence : VerificationEvidence) (r : MemoryRepository) (report : Report)
    → lookup evidence.run_id r.reports ≡ some report
    → has_assertion report.assertions evidence.assertion.id ≡ true
    → record_verification evidence r ≡ (ok tt, r)
unfolding record_verification
record_verification-held evidence r report found there = rw (found, record_verification, there)

module _ (evidence : VerificationEvidence) where
  record-IsHeld :
      (r : MemoryRepository)
      → (record_verification evidence r).0 ≡ ok tt
      → IsHeld evidence (record_verification evidence r).1
  unfolding record_verification with_evidence IsHeld has_assertion
  record-IsHeld r h = elim (Option-cases (lookup evidence.run_id r.reports)) [
    | inl missing ↦ ground (arith, h, missing)
    | inr (report, found) ↦
        elim (Bool-cases (has_assertion report.assertions evidence.assertion.id)) [
          | inl there ↦ rw (found, record_verification, there) (report, found, there)
          | inr fresh ↦
              rw (found, record_verification, fresh)
                (
                  with_evidence evidence report,
                  lookup-insert_self evidence.run_id _ r.reports,
                  has_assertion-append report.assertions (evidence.assertion ∷ [])
                        evidence.assertion.id
                      ∙ ground (arith, eq_iff evidence.assertion.id evidence.assertion.id),
                )
        ]
  ]

  -- Evidence that was recorded is never recorded again: later evidence for the same run with the
  -- same assertion id, whatever it says, succeeds and changes nothing.
  pub record_verification-once :
      (later : VerificationEvidence) (r : MemoryRepository)
      → later.run_id ≡ evidence.run_id
      → later.assertion.id ≡ evidence.assertion.id
      → (record_verification evidence r).0 ≡ ok tt
      → record_verification later (record_verification evidence r).1
        ≡ (ok tt, (record_verification evidence r).1)
  unfolding IsHeld
  record_verification-once later r same_run same_id h =
      let (report, found, there) = record-IsHeld r h in
      record_verification-held later _ report
        (ap (λ id. lookup id (record_verification evidence r).1.reports) same_run ∙ found)
        (ap (has_assertion report.assertions) same_id ∙ there)

-- An effect is a duplicate exactly if it was applied before. Afterwards it is applied and its
-- sequence is the highest that was seen, and no other effect changes.
pub apply_reference_merchant_effect_lem :
    (effect_id : String) (sequence : ℕ) (r : MemoryRepository)
    → let (answer, r') = apply_reference_merchant_effect effect_id sequence r in
      (answer ≡ ok (has effect_id r.merchant_effects))
      × (has effect_id r'.merchant_effects ≡ true)
      × (get_or effect_id 0 r'.merchant_effects ≡ (
          if ltb (get_or effect_id 0 r.merchant_effects) sequence
          then sequence
          else get_or effect_id 0 r.merchant_effects))
      × ((other_id : String)
          → other_id ≢ effect_id
          → lookup other_id r'.merchant_effects ≡ lookup other_id r.merchant_effects)
unfolding apply_reference_merchant_effect
apply_reference_merchant_effect_lem effect_id sequence r =
    elim (Option-cases (lookup effect_id r.merchant_effects)) [
      | inl fresh ↦
          rw (fresh, apply_reference_merchant_effect)
            (
              ground (arith, fresh),
              ground (
                arith,
                lookup-insert effect_id effect_id sequence r.merchant_effects,
                eq_iff effect_id effect_id,
                fresh,
              ),
              ground (
                arith,
                lookup-insert effect_id effect_id sequence r.merchant_effects,
                eq_iff effect_id effect_id,
                fresh,
              ),
              λ other_id ne. lookup-insert_ne effect_id other_id sequence r.merchant_effects ne,
            )
      | inr (previous, found) ↦ elim (Bool-cases (ltb previous sequence)) [
        | inl later ↦
            rw (found, apply_reference_merchant_effect, later)
              (
                ground (arith, found),
                ground (
                  arith,
                  lookup-insert effect_id effect_id sequence r.merchant_effects,
                  eq_iff effect_id effect_id,
                  found,
                  later,
                ),
                ground (
                  arith,
                  lookup-insert effect_id effect_id sequence r.merchant_effects,
                  eq_iff effect_id effect_id,
                  found,
                  later,
                ),
                λ other_id ne. lookup-insert_ne effect_id other_id sequence r.merchant_effects ne,
              )
        | inr old ↦
            rw (found, apply_reference_merchant_effect, old)
              (
                ground (arith, found),
                ground (
                  arith,
                  lookup-insert effect_id effect_id sequence r.merchant_effects,
                  eq_iff effect_id effect_id,
                  found,
                  old,
                ),
                ground (
                  arith,
                  lookup-insert effect_id effect_id sequence r.merchant_effects,
                  eq_iff effect_id effect_id,
                  found,
                  old,
                ),
                λ other_id ne. refl,
              )
      ]
    ]
