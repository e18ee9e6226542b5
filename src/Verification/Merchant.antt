-- ===== src/Verification/Merchant.antt =====
-- `ReferenceMerchant`: the in-memory merchant, with its set of effects and the last sequence of
-- each effect.
pub mod Convergence
use parity_lab.Prelude.{
  ℕ, ◌≤◌, String, Bytes, Bool, true, false, List, [], ◌∷◌, ◌&&◌, ◌||◌, not, ◌==◌, string_eq,
  beq_self, if◌then◌else◌, ◌≡◌, refl, ◌≢◌, arith, ltb, length, none, some,
}
use parity_lab.Prelude.Table.{
  Table, lookup, insert, has, get_or, lookup-insert, lookup-insert_self, lookup-insert_ne,
}
use parity_lab.Verification.Signing.{Delivery, Receipt, contract_version, verify}

pub record ReferenceMerchant : Type 0 where
  pub effects : Table String (Unit {0})
  pub sequences : Table String ℕ

-- `NewReferenceMerchant`
unfoldable pub new_reference_merchant : ReferenceMerchant
new_reference_merchant = record { effects = []; sequences = [] }

-- the receipts of a delivery that passes the signature check
abbrev accepted_receipt : Bool → ℕ → Receipt
accepted_receipt again n = record {
  accepted = true;
  duplicate = again;
  signature_valid = true;
  business_effects = n;
}

abbrev rejected_receipt : ℕ → Receipt
rejected_receipt n = record {
  accepted = false;
  duplicate = false;
  signature_valid = false;
  business_effects = n;
}

module _ (hmac : String → String → Bytes) (secret : String) where
  -- the guard of `Deliver`
  abbrev pub authentic : Delivery → Bool
  authentic d = (d.version == contract_version) && verify hmac secret d

  unfoldable pub deliver : Delivery → ReferenceMerchant → Receipt × ReferenceMerchant
  deliver d m =
      if not (authentic d)
      then (rejected_receipt (length m.effects), m)
      else if ltb d.sequence (get_or d.effect_id 0 m.sequences)
      then (accepted_receipt true (length m.effects), m)
      else (let m' = record m { sequences = insert d.effect_id d.sequence m.sequences } in
          if has d.effect_id m.effects
          then (accepted_receipt true (length m.effects), m')
          else (let effects' = insert d.effect_id tt m.effects in
              (accepted_receipt false (length effects'), record m' { effects = effects' })))

  unfoldable pub deliver_all : List Delivery → ReferenceMerchant → ReferenceMerchant
  deliver_all [] m = m
  deliver_all (d ∷ ds) m = deliver_all ds (deliver d m).1
