-- ===== src/Verification/Relay.antt =====
-- `Target`, `Relay.Execute`, and `Result`. A target is a step on a state of its own that may fail;
-- `ctx n` is what the `n`-th call of `ctx.Err()` returns, `none` while the context is live.
pub mod Faults
use parity_lab.Prelude.{
  ℕ, suc, ◌+◌, String, Bytes, Bool, List, [], ◌∷◌, Option, none, some, if◌then◌else◌,
}
use parity_lab.Prelude.Text.{◌<>◌}
use parity_lab.Failure.{Failure, message, Try, ok, err}
use parity_lab.Domain.{Fault, no_fault, duplicate, reorder, timeout, tamper, other}
use parity_lab.Verification.Signing.{Delivery, Receipt, contract_version, sign, strings_of_zero}

pub record Result : Type 0 where
  pub fault : Fault
  pub attempts : ℕ
  pub accepted : ℕ
  pub duplicates : ℕ
  pub rejected : ℕ
  pub business_effects : ℕ

-- `Result{Fault: fault}`
abbrev pub zero_result : Fault → Result
zero_result fault = record {
  fault = fault;
  attempts = 0;
  accepted = 0;
  duplicates = 0;
  rejected = 0;
  business_effects = 0;
}

abbrev pub Target : Type 0 → Type 0
Target S = Delivery → S → Try Receipt × S

abbrev pub Context : Type 0
Context = ℕ → Option Failure

-- the counters after one receipt
unfoldable pub counted : Receipt → Result → Result
counted r result = record result {
  attempts = result.attempts + 1;
  accepted = if r.accepted then result.accepted + 1 else result.accepted;
  duplicates = if r.duplicate then result.duplicates + 1 else result.duplicates;
  rejected = if r.accepted then result.rejected else result.rejected + 1;
  business_effects = r.business_effects;
}

-- the base envelope, versioned and signed
unfoldable pub envelope : (String → String → Bytes) → String → Delivery → Delivery
envelope hmac secret base =
    let versioned = record base { version = contract_version } in
    record versioned { signature = sign hmac secret versioned }

-- the newer snapshot of a reordered pair
unfoldable pub newer_than : (String → String → Bytes) → String → Delivery → Delivery
newer_than hmac secret base =
    let newer = record base {
      event_id = base.event_id <> "_newer";
      sequence = base.sequence + 1;
    } in
    record newer { signature = sign hmac secret newer }

-- the tampered copy keeps the signature
unfoldable pub tampered : Delivery → Delivery
tampered d = record d { payload_hash = strings_of_zero (Prim.Native.String.len d.payload_hash) }

-- the `switch` on the fault, over the signed base: the deliveries, and the attempts made so far
-- (the error quotes the fault by `%q`, which escapes unprintable characters; here it stands bare)
unfoldable pub planned :
    (String → String → Bytes) → String → Delivery → Fault → Try (List Delivery × ℕ)
unfolding newer_than tampered
planned hmac secret base no_fault = ok (base ∷ [], 0)
planned hmac secret base duplicate = ok (base ∷ base ∷ [], 0)
planned hmac secret base reorder = ok (newer_than hmac secret base ∷ base ∷ [], 0)
planned hmac secret base timeout = ok (base ∷ [], 1)
planned hmac secret base tamper = ok (tampered base ∷ [], 0)
planned hmac secret base (other s) = err (message ("unsupported verification fault: " <> s))

module _ {S : Type 0} (target : Target S) (ctx : Context) where
  -- what the loop does with the answer of the target, the rest of the loop passed in
  abbrev received :
      Try Receipt
      → Result
      → S
      → (Result → S → (Result × Option Failure) × S)
      → (Result × Option Failure) × S
  received (err e) result s rest = ((record result { attempts = result.attempts + 1 }, some e), s)
  received (ok r) result s rest = rest (counted r result) s

  -- the loop over the deliveries, from the `n`-th
  unfoldable pub deliver_from : ℕ → List Delivery → Result → S → (Result × Option Failure) × S
  unfolding counted
  deliver_from n [] result s = ((result, none), s)
  deliver_from n (d ∷ ds) result s = elim (ctx n) [
    | some e ↦ ((result, some e), s)
    | none ↦ let (answer, s') = target d s in received answer result s' (deliver_from (suc n) ds)
  ]

  unfoldable pub execute :
      (String → String → Bytes) → String → Delivery → Fault → S → (Result × Option Failure) × S
  unfolding planned envelope deliver_from
  execute hmac secret base fault s = elim (planned hmac secret (envelope hmac secret base) fault) [
    | err e ↦ ((zero_result (other ""), some e), s)
    | ok (deliveries, attempts) ↦
        deliver_from 0 deliveries (record (zero_result fault) { attempts = attempts }) s
  ]
