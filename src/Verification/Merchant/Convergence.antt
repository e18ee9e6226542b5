-- ===== src/Verification/Merchant/Convergence.antt =====
-- What a merchant holds after any deliveries, in any order: `ReferenceMerchant.Deliver`.
use Prim.Native.Nat.{max}
use parity_lab.Prelude.{
  ℕ, ◌+◌, String, Bytes, Bool, true, false, List, [], ◌∷◌, ◌&&◌, ◌||◌, not, ◌==◌, string_eq,
  if◌then◌else◌, ◌≡◌, refl, arith, ap, ◌∙◌, eq_iff,
}
use parity_lab.Prelude.Table.{has, get_or, lookup-insert}
use parity_lab.Verification.Signing.{Delivery}
use parity_lab.Verification.Merchant.{ReferenceMerchant, authentic, deliver, deliver_all}

abbrev bit : Bool → ℕ
bit true = 1
bit false = 0

-- An effect that was never applied has no sequence either.
abbrev pub IsConsistent : ReferenceMerchant → Type 0
IsConsistent m = (k : String) → has k m.effects ≡ false → get_or k 0 m.sequences ≡ 0

module _ (hmac : String → String → Bytes) (secret : String) where
  -- the highest sequence of an authentic delivery for `k`, at least `n`
  pub newest : String → List Delivery → ℕ → ℕ
  newest k [] n = n
  newest k (d ∷ ds) n =
      newest k ds (if authentic hmac secret d && (d.effect_id == k) then max n d.sequence else n)

  -- whether an authentic delivery for `k` is among `ds`
  pub asked_for : String → List Delivery → Bool
  asked_for k [] = false
  asked_for k (d ∷ ds) = authentic hmac secret d && (d.effect_id == k) || asked_for k ds

  -- the receipts that report a new business effect for `k`
  pub fresh_receipts : String → List Delivery → ReferenceMerchant → ℕ
  fresh_receipts k [] m = 0
  fresh_receipts k (d ∷ ds) m =
      let (r, m') = deliver hmac secret d m in
      bit (r.accepted && not r.duplicate && (d.effect_id == k)) + fresh_receipts k ds m'

  deliver-sequence :
      (k : String) (d : Delivery) (m : ReferenceMerchant)
      → get_or k 0 (deliver hmac secret d m).1.sequences ≡ (
          if authentic hmac secret d && (d.effect_id == k)
          then max (get_or k 0 m.sequences) d.sequence
          else get_or k 0 m.sequences)
  unfolding deliver
  deliver-sequence k d m =
      ground (arith, lookup-insert d.effect_id k d.sequence m.sequences, eq_iff d.effect_id k)

  pub deliver-effects :
      (k : String) (d : Delivery) (m : ReferenceMerchant)
      → IsConsistent m
      → has k (deliver hmac secret d m).1.effects
        ≡ ((authentic hmac secret d && (d.effect_id == k)) || has k m.effects)
  unfolding deliver
  deliver-effects k d m c =
      ground (arith, lookup-insert d.effect_id k tt m.effects, eq_iff d.effect_id k, c d.effect_id)

  pub deliver-IsConsistent :
      (d : Delivery) (m : ReferenceMerchant)
      → IsConsistent m
      → IsConsistent (deliver hmac secret d m).1
  unfolding deliver
  deliver-IsConsistent d m c = λ k h. ground (
    arith,
    lookup-insert d.effect_id k d.sequence m.sequences,
    lookup-insert d.effect_id k tt m.effects,
    eq_iff d.effect_id k,
    c k,
    c d.effect_id,
  )

  deliver-fresh :
      (k : String) (d : Delivery) (m : ReferenceMerchant)
      → let (r, m') = deliver hmac secret d m in
        bit (r.accepted && not r.duplicate && (d.effect_id == k)) + bit (has k m.effects)
        ≡ bit (has k m'.effects)
  unfolding deliver
  deliver-fresh k d m =
      ground (arith, lookup-insert d.effect_id k tt m.effects, eq_iff d.effect_id k)

  -- After any deliveries, the last sequence of an effect is the highest that an authentic delivery
  -- for it carried, and at least the one before.
  pub deliver_all-sequence :
      (k : String) (ds : List Delivery) (m : ReferenceMerchant)
      → get_or k 0 (deliver_all hmac secret ds m).sequences ≡ newest k ds (get_or k 0 m.sequences)
  unfolding deliver_all newest
  deliver_all-sequence k [] m = refl
  deliver_all-sequence k (d ∷ ds) m =
      deliver_all-sequence k ds (deliver hmac secret d m).1
      ∙ ap (newest k ds) (deliver-sequence k d m)

  -- After any deliveries to a consistent merchant, an effect has been applied exactly if it had been before or
  -- an authentic delivery asked for it.
  pub deliver_all-effects :
      (k : String) (ds : List Delivery) (m : ReferenceMerchant)
      → IsConsistent m
      → has k (deliver_all hmac secret ds m).effects ≡ (asked_for k ds || has k m.effects)
  unfolding deliver_all asked_for
  deliver_all-effects k [] m c = refl
  deliver_all-effects k (d ∷ ds) m c = ground (
    arith,
    deliver_all-effects k ds (deliver hmac secret d m).1 (deliver-IsConsistent d m c),
    deliver-effects k d m c,
  )

  fresh_receipts-add_before :
      (k : String) (ds : List Delivery) (m : ReferenceMerchant)
      → fresh_receipts k ds m + bit (has k m.effects)
        ≡ bit (has k (deliver_all hmac secret ds m).effects)
  unfolding fresh_receipts deliver_all
  fresh_receipts-add_before k [] m = omega arith
  fresh_receipts-add_before k (d ∷ ds) m =
      omega (arith, fresh_receipts-add_before k ds (deliver hmac secret d m).1, deliver-fresh k d m)

  -- Exactly once: over any deliveries, an effect is reported as new at most once, never if it had been
  -- applied before, and exactly once if an authentic delivery asks for it and it had not. The
  -- merchant is consistent.
  pub deliver_all-exactly_once :
      (k : String) (ds : List Delivery) (m : ReferenceMerchant)
      → IsConsistent m
      → fresh_receipts k ds m ≡ (if has k m.effects then 0 else if asked_for k ds then 1 else 0)
  deliver_all-exactly_once k ds m c =
      ground (arith, fresh_receipts-add_before k ds m, deliver_all-effects k ds m c)
