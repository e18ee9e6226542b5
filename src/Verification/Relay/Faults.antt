-- ===== src/Verification/Relay/Faults.antt =====
-- What `Relay.Execute` reports of a target that applies each effect once, for every fault.
use parity_lab.Prelude.{
  ℕ, suc, ◌+◌, List, if◌then◌else◌, String, Bytes, Bool, true, false, [], ◌∷◌, Option, none, ◌||◌,
  ◌==◌, string_eq, beq_self, ◌≡◌, refl, sym, ap, ◌∙◌, ◌≢◌, arith,
}
use parity_lab.Failure.{Failure, ok}
use parity_lab.Domain.{Fault, no_fault, duplicate, reorder, timeout, tamper, other}
use parity_lab.Verification.Signing.{
  Delivery, Receipt, contract_version, sign, IsByteMac, verify-signed, verify_forged, signing_input,
}
use parity_lab.Verification.Merchant.{authentic}
use parity_lab.Verification.Relay.{
  Target, Context, Result, execute, envelope, newer_than, tampered, zero_result, deliver_from,
  planned, planned,
}

-- The contract of a target on the states that `Inv` holds of: `applied s k` says that the effect
-- `k` has been applied, `effects` and `effects_refused` what a receipt shows as business effects.
pub record AppliesOnce {S : Type 0} (hmac : String → String → Bytes) (secret : String)
    (target : Target S) (Inv : S → Type 0) (applied : S → String → Bool)
    (effects effects_refused : S → ℕ) : Type 0 where
  pub refuses :
      (d : Delivery) (s : S)
      → authentic hmac secret d ≡ false
      → (r : Receipt) × (target d s ≡ (ok r, s))
        × (r.accepted ≡ false)
        × (r.duplicate ≡ false)
        × (r.business_effects ≡ effects_refused s)
  pub applies :
      (d : Delivery) (s : S)
      → Inv s
      → authentic hmac secret d ≡ true
      → (r : Receipt) × (s' : S) × (target d s ≡ (ok r, s'))
        × Inv s'
        × (r.accepted ≡ true)
        × (r.duplicate ≡ applied s d.effect_id)
        × (r.business_effects ≡ effects s')
        × ((k : String) → applied s' k ≡ (d.effect_id == k || applied s k))

-- the counters that a run of each fault must show, where `again` says that the effect had been
-- applied before: attempts, accepted, duplicates, rejected
abbrev pub expected_tally : Fault → Bool → ℕ × ℕ × ℕ × ℕ
expected_tally no_fault again = (1, 1, (if again then 1 else 0), 0)
expected_tally duplicate again = (2, 2, (if again then 2 else 1), 0)
expected_tally reorder again = (2, 2, (if again then 2 else 1), 0)
expected_tally timeout again = (2, 1, (if again then 1 else 0), 0)
expected_tally tamper again = (1, 0, 0, 1)
expected_tally (other s) again = (0, 0, 0, 0)

abbrev pub is_tamper : Fault → Bool
is_tamper tamper = true
is_tamper _ = false

-- the faults that the relay supports
abbrev pub IsSupported : Fault → Type 0
IsSupported (other s) = ⊥
IsSupported _ = Unit

abbrev pub tally : Result → ℕ × ℕ × ℕ × ℕ
tally r = (r.attempts, r.accepted, r.duplicates, r.rejected)

-- The outcome of a run: no error, the fault it was asked for, the counters that this fault must
-- show, the effects that a receipt showed last, and the effects that have been applied.
pub record Converges {S : Type 0} (Inv : S → Type 0) (applied : S → String → Bool)
    (effects effects_refused : S → ℕ) (effect_id : String) (fault : Fault) (s : S)
    (out : (Result × Option Failure) × S) : Type 0 where
  pub no_error : out.0.1 ≡ none
  pub same_fault : out.0.0.fault ≡ fault
  pub counts : tally out.0.0 ≡ expected_tally fault (applied s effect_id)
  pub shown :
      out.0.0.business_effects ≡ (if is_tamper fault then effects_refused s else effects out.1)
  pub kept : Inv out.1
  pub effect :
      (k : String)
      → applied out.1 k ≡ (if is_tamper fault then applied s k else effect_id == k || applied s k)

module _ (hmac : String → String → Bytes) (secret : String) (bytes : IsByteMac hmac secret) where
  envelope-authentic : (base : Delivery) → authentic hmac secret (envelope hmac secret base) ≡ true
  unfolding envelope
  envelope-authentic base =
      verify-signed hmac secret bytes (record base { version = contract_version })

  newer_than-authentic :
      (base : Delivery)
      → authentic hmac secret (newer_than hmac secret (envelope hmac secret base)) ≡ true
  unfolding envelope newer_than
  newer_than-authentic base = verify-signed hmac secret bytes _

  tampered-refused :
      (base : Delivery)
      → let d = envelope hmac secret base in
        hmac secret (signing_input (tampered d)) ≢ hmac secret (signing_input d)
        → authentic hmac secret (tampered d) ≡ false
  unfolding envelope tampered sign signing_input
  tampered-refused base ne =
      verify_forged hmac secret bytes (record base { version = contract_version }) _ refl ne

  module _ {S : Type 0} (target : Target S) (ctx : Context) (Inv : S → Type 0)
      (applied : S → String → Bool) (effects effects_refused : S → ℕ)
      (laws : AppliesOnce hmac secret target Inv applied effects effects_refused)
      (live : (n : ℕ) → ctx n ≡ none) where
    -- the counters after an accepted delivery
    abbrev plus_accepted : Result → Bool → ℕ → Result
    plus_accepted result again n = record {
      fault = result.fault;
      attempts = result.attempts + 1;
      accepted = result.accepted + 1;
      duplicates = if again then result.duplicates + 1 else result.duplicates;
      rejected = result.rejected;
      business_effects = n;
    }

    accept :
        (n : ℕ) (d : Delivery) (result : Result) (s : S)
        → Inv s
        → authentic hmac secret d ≡ true
        → (s' : S) × Inv s'
          × ((ds : List Delivery)
              → deliver_from target ctx n (d ∷ ds) result s
                ≡ deliver_from target ctx
                    (suc n)
                    ds
                    (plus_accepted result (applied s d.effect_id) (effects s'))
                    s')
          × ((k : String) → applied s' k ≡ (d.effect_id == k || applied s k))
    unfolding deliver_from
    accept n d result s i auth =
        let (r, s', run, i', acc, dup, eff, app) = laws.applies d s i auth in
        (s', i', (λ ds. rw (live n, deliver_from, run, acc, dup, eff)), app)

    abbrev Outcome : Delivery → Fault → S → Type 0
    Outcome base fault s =
        Converges Inv applied effects effects_refused base.effect_id fault s
          (execute target ctx hmac secret base fault s)

    once :
        (base : Delivery) (s : S) (attempts : ℕ) (fault : Fault)
        → Inv s
        → is_tamper fault ≡ false
        → expected_tally fault (applied s base.effect_id)
          ≡ (attempts + 1, 1, (if applied s base.effect_id then 1 else 0), 0)
        → Converges Inv applied effects effects_refused base.effect_id fault s (
            deliver_from target ctx 0
              (envelope hmac secret base ∷ [])
              (record (zero_result fault) { attempts = attempts })
              s)
    unfolding deliver_from envelope
    once base s attempts fault i ne e =
        let (s', i', run, app) =
          accept 0 (envelope hmac secret base) (record (zero_result fault) { attempts = attempts })
            s i (envelope-authentic base) in
        rw (run []) (record {
          no_error = refl;
          same_fault = refl;
          counts = sym e;
          shown = rw ne;
          kept = i';
          effect = λ k. rw ne (app k);
        })

    twice_counts :
        (a b c : Bool)
        → a ≡ b
        → c ≡ true
        → ◌≡◌ {A = ℕ × ℕ × ℕ × ℕ}
            (
              0 + 1 + 1,
              0 + 1 + 1,
              (if c then (if a then 0 + 1 else 0) + 1 else (if a then 0 + 1 else 0)),
              0,
            )
            (2, 2, (if b then 2 else 1), 0)
    twice_counts a b c p q = ground arith

    twice_effect :
        (first second before : Bool) {after : Bool}
        → after ≡ (first || before)
        → first ≡ second
        → (second || after) ≡ (second || before)
    twice_effect first second before p q = ground arith

    -- a first delivery for the same effect, then the base
    twice :
        (base first : Delivery) (s : S) (fault : Fault)
        → Inv s
        → authentic hmac secret first ≡ true
        → first.effect_id ≡ base.effect_id
        → is_tamper fault ≡ false
        → expected_tally fault (applied s base.effect_id)
          ≡ (2, 2, (if applied s base.effect_id then 2 else 1), 0)
        → Converges Inv applied effects effects_refused base.effect_id fault s (
            deliver_from target ctx 0
              (first ∷ envelope hmac secret base ∷ [])
              (zero_result fault)
              s)
    unfolding deliver_from envelope
    twice base first s fault i auth same ne e =
        let (s1, i1, run1, app1) = accept 0 first (zero_result fault) s i auth in
        let (s2, i2, run2, app2) =
          accept 1 (envelope hmac secret base)
            (plus_accepted (zero_result fault) (applied s first.effect_id) (effects s1)) s1 i1
            (envelope-authentic base) in
        let known : applied s1 base.effect_id ≡ true =
          rw (app1 base.effect_id, same, beq_self base.effect_id) in
        rw (run1 (envelope hmac secret base ∷ []), run2 [])
          (record {
            no_error = refl;
            same_fault = refl;
            counts =
                twice_counts (applied s first.effect_id) (applied s base.effect_id)
                  (applied s1 base.effect_id) (ap (applied s) same) known
                ∙ sym e;
            shown = rw ne;
            kept = i2;
            effect = λ k. rw ne (app2 k ∙ twice_effect _ _ _ (app1 k) (ap (λ x. x == k) same));
          })

    -- Whatever the fault, the relay reports exactly what a target that applies each effect once must
    -- show, and the effect has been applied once unless the delivery was tampered with.
    pub execute-converges :
        (base : Delivery) (fault : Fault) (s : S)
        → IsSupported fault
        → Inv s
        → hmac secret (signing_input (tampered (envelope hmac secret base)))
          ≢ hmac secret (signing_input (envelope hmac secret base))
        → Outcome base fault s
    unfolding execute planned deliver_from
    execute-converges base no_fault s h i ne = once base s 0 no_fault i refl refl
    execute-converges base duplicate s h i ne =
        twice base (envelope hmac secret base) s duplicate i (envelope-authentic base) refl refl
          refl
    execute-converges base reorder s h i ne =
        twice base (newer_than hmac secret (envelope hmac secret base)) s reorder i
          (newer_than-authentic base) refl refl refl
    execute-converges base timeout s h i ne = once base s 1 timeout i refl refl
    execute-converges base tamper s h i ne =
        let (r, run, acc, dup, eff) =
          laws.refuses (tampered (envelope hmac secret base)) s (tampered-refused base ne) in
        rw (live 0, deliver_from, run, acc, dup, eff)
          (record {
            no_error = refl;
            same_fault = refl;
            counts = refl;
            shown = refl;
            kept = i;
            effect = λ k. refl;
          })
    execute-converges base (other f) s h i ne = absurd h
