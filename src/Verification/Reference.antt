-- ===== src/Verification/Reference.antt =====
-- The relay in front of the bundled `ReferenceMerchant`.
use parity_lab.Prelude.{
  ℕ, String, Bytes, Bool, true, false, none, string_eq, ◌≡◌, refl, ap, ◌∙◌, ◌≢◌, arith, length,
}
use parity_lab.Prelude.Table.{has}
use parity_lab.Failure.{ok}
use parity_lab.Domain.{Fault}
use parity_lab.Verification.Signing.{Delivery, IsByteMac, signing_input}
use parity_lab.Verification.Merchant.{ReferenceMerchant, authentic, deliver}
use parity_lab.Verification.Merchant.Convergence.{
  IsConsistent, deliver-IsConsistent, deliver-effects,
}
use parity_lab.Verification.Relay.{Target, Context, execute, envelope, tampered}
use parity_lab.Verification.Relay.Faults.{AppliesOnce, Converges, IsSupported, execute-converges}

-- `Deliver` of the merchant, which never fails, as a target of the relay
abbrev pub reference_target : (String → String → Bytes) → String → Target ReferenceMerchant
reference_target hmac secret d m = let (r, m') = deliver hmac secret d m in (ok r, m')

abbrev pub has_effect : ReferenceMerchant → String → Bool
has_effect m k = has k m.effects

abbrev pub effect_count : ReferenceMerchant → ℕ
effect_count m = length m.effects

module _ (hmac : String → String → Bytes) (secret : String) where
  reference_refuses :
      (d : Delivery) (m : ReferenceMerchant)
      → authentic hmac secret d ≡ false
      → let (r, m') = deliver hmac secret d m in
        (m' ≡ m)
        × (r.accepted ≡ false)
        × (r.duplicate ≡ false)
        × (r.business_effects ≡ effect_count m)
  unfolding deliver
  reference_refuses d m h = ground arith

  reference_accepts :
      (d : Delivery) (m : ReferenceMerchant)
      → IsConsistent m
      → authentic hmac secret d ≡ true
      → let (r, m') = deliver hmac secret d m in
        (r.accepted ≡ true)
        × (r.duplicate ≡ has_effect m d.effect_id)
        × (r.business_effects ≡ effect_count m')
  unfolding deliver
  reference_accepts d m c h = ground (arith, c d.effect_id)

  reference-AppliesOnce :
      AppliesOnce hmac secret
        (reference_target hmac secret)
        IsConsistent
        has_effect
        effect_count
        effect_count
  reference-AppliesOnce = record {
    refuses = λ d m h.
        let (same, acc, dup, eff) = reference_refuses d m h in
        (
          (deliver hmac secret d m).0,
          ap (λ x. (ok (deliver hmac secret d m).0, x)) same,
          acc,
          dup,
          eff,
        );
    applies = λ d m c h.
        let (acc, dup, eff) = reference_accepts d m c h in
        (
          _,
          _,
          refl,
          deliver-IsConsistent hmac secret d m c,
          acc,
          dup,
          eff,
          λ k. deliver-effects hmac secret k d m c ∙ rw h,
        );
  }

  -- Whatever the supported fault, a relay in front of the bundled merchant reports no error and exactly the
  -- expected counters, and the effect has been applied once, or not at all after tampering. The
  -- context is live, the merchant consistent, and the MACs of the envelope and of its tampered
  -- copy differ.
  pub execute_reference :
      (ctx : Context) (base : Delivery) (fault : Fault) (m : ReferenceMerchant)
      → IsByteMac hmac secret
      → ((n : ℕ) → ctx n ≡ none)
      → IsSupported fault
      → IsConsistent m
      → hmac secret (signing_input (tampered (envelope hmac secret base)))
        ≢ hmac secret (signing_input (envelope hmac secret base))
      → Converges IsConsistent has_effect effect_count effect_count base.effect_id fault m
          (execute (reference_target hmac secret) ctx hmac secret base fault m)
  execute_reference ctx base fault m bytes live h c ne =
      execute-converges hmac secret bytes (reference_target hmac secret) ctx IsConsistent has_effect
        effect_count effect_count reference-AppliesOnce live base fault m h c ne
