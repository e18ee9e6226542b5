-- ===== src/Tests/Relay.antt =====
-- The relay and the bundled merchant.
use parity_lab.Prelude.{false, List, [], ◌∷◌, string_eq, ◌≡◌, refl, ◌≢◌, arith, if◌then◌else◌}
use parity_lab.Prelude.Text.{decimal}
use parity_lab.Prelude.Table.{has, lookup}
use parity_lab.Domain.{reorder}
use parity_lab.Verification.Signing.{
  Delivery, verify, signed, signing_input, verify_forged, strings_of_zero,
}
use parity_lab.Verification.Merchant.{new_reference_merchant}
use parity_lab.Verification.Merchant.Convergence.{
  IsConsistent, asked_for, fresh_receipts, deliver_all-exactly_once,
}
use parity_lab.Verification.Relay.{execute, envelope, tampered}
use parity_lab.Verification.Relay.Faults.{Converges}
use parity_lab.Verification.Reference.{
  reference_target, has_effect, effect_count, execute_reference,
}
use parity_lab.Tests.Data.{test_mac, test_secret, test_mac-IsByteMac, live}

abbrev base : Delivery
base = record {
  version = "";
  event_id = "verify_1";
  effect_id = "effect_1";
  run_id = "run_1";
  sequence = 1;
  payload_hash = "ab";
  signature = "";
}

-- a copy with another payload
abbrev forged : Delivery
forged = record (signed test_mac test_secret base) { payload_hash = "00" }

macs_differ :
    test_mac test_secret (signing_input forged) ≢ test_mac test_secret (signing_input base)
unfolding signing_input decimal
macs_differ = ground arith

verify_forged_example : verify test_mac test_secret forged ≡ false
verify_forged_example =
    verify_forged test_mac test_secret test_mac-IsByteMac base forged refl macs_differ

new-IsConsistent : IsConsistent new_reference_merchant
unfolding new_reference_merchant lookup
new-IsConsistent = λ k h. refl

abbrev deliveries : List Delivery
deliveries = envelope test_mac test_secret base ∷ forged ∷ envelope test_mac test_secret base ∷ []

deliver_all-exactly_once_example :
    fresh_receipts test_mac test_secret "effect_1" deliveries new_reference_merchant ≡ (
      if has "effect_1" new_reference_merchant.effects
      then 0
      else if asked_for test_mac test_secret "effect_1" deliveries
      then 1
      else 0)
deliver_all-exactly_once_example =
    deliver_all-exactly_once test_mac test_secret "effect_1" deliveries new_reference_merchant
      new-IsConsistent

tampering_shows :
    test_mac test_secret (signing_input (tampered (envelope test_mac test_secret base)))
    ≢ test_mac test_secret (signing_input (envelope test_mac test_secret base))
unfolding tampered envelope signing_input decimal strings_of_zero
tampering_shows = ground arith

execute_reference_example :
    Converges IsConsistent has_effect effect_count effect_count "effect_1" reorder
      new_reference_merchant
      (execute
        (reference_target test_mac test_secret)
        live
        test_mac
        test_secret
        base
        reorder
        new_reference_merchant)
execute_reference_example =
    execute_reference test_mac test_secret live base reorder new_reference_merchant
      test_mac-IsByteMac (λ n. refl) tt new-IsConsistent tampering_shows
