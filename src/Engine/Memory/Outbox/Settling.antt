-- ===== src/Engine/Memory/Outbox/Settling.antt =====
-- Fresh ids, and messages that are settled for good: published or failed.
use parity_lab.Prelude.{
  ℕ, ◌+◌, ◌≤◌, String, true, false, none, some, string_eq, ◌≡◌, refl, sym, ◌∙◌, ◌≢◌, ◌||◌, ◌&&◌,
  arith, eq_iff, subst,
}
use parity_lab.Prelude.Text.Decimal.{padded-injective}
use parity_lab.Prelude.Table.{lookup, insert, lookup-insert, lookup-insert_ne}
use text.Mathlib.TextLemmas.{append_cancel_left}
use parity_lab.Domain.{Time, Duration}
use parity_lab.Engine.Records.{RawMessage}
use parity_lab.Engine.Memory.{
  MemoryRepository, MemoryOutbox, put_outbox, fresh_item, outbox_id, new_memory_repository,
}
use parity_lab.Engine.Memory.Outbox.{claimable}
use parity_lab.Engine.Memory.Outbox.Steps.{
  Moment, Step, Reach, here, next, Change, claims, renews, completes, retries, gives_up, Effect,
  idle, adds, touches, Step-Effect,
}

outbox_id-injective : (m n : ℕ) → outbox_id m ≡ outbox_id n → m ≡ n
unfolding outbox_id
outbox_id-injective m n e = padded-injective 6 m n (append_cancel_left "outbox_" _ _ e)

-- a settled item is not locked, and an item is settled in one way
abbrev pub IsSound : MemoryOutbox → Type 0
IsSound item =
    ((item.published || item.failed) ≡ true → item.message.locked_by ≡ "")
    × ((item.published && item.failed) ≡ false)

pub record IsOrderly (r : MemoryRepository) : Type 0 where
  pub unused : (k : ℕ) → r.next_outbox ≤ k → lookup (outbox_id k) r.outbox ≡ none
  pub sound : (id : String) (item : MemoryOutbox) → lookup id r.outbox ≡ some item → IsSound item
  pub keyed :
      (id : String) (item : MemoryOutbox) → lookup id r.outbox ≡ some item → item.message.id ≡ id

pub new-IsOrderly : IsOrderly new_memory_repository
unfolding new_memory_repository lookup
new-IsOrderly = record { unused = λ k h. refl; sound = λ id item e. cc; keyed = λ id item e. cc }

abbrev pub IsNamed : String → Type 0
IsNamed owner = owner ≢ ""

put_outbox-unused :
    (now : Time) (topic id : String) (payload : RawMessage) (r : MemoryRepository)
    → IsOrderly r
    → (k : ℕ) → r.next_outbox + 1 ≤ k
    → lookup (outbox_id k) (put_outbox now topic id payload r).outbox ≡ none
unfolding put_outbox
put_outbox-unused now topic id payload r o k h =
    lookup-insert_ne (outbox_id r.next_outbox) (outbox_id k) _ r.outbox
      (λ e. absurd (omega (arith, outbox_id-injective _ _ e)))
    ∙ o.unused k (omega arith)

put_outbox-IsOrderly :
    (now : Time) (topic id : String) (payload : RawMessage) (r : MemoryRepository)
    → IsOrderly r
    → IsOrderly (put_outbox now topic id payload r)
unfolding put_outbox
put_outbox-IsOrderly now topic id payload r o = record {
  unused = put_outbox-unused now topic id payload r o;
  sound = λ j item e. ground (
    arith,
    lookup-insert (outbox_id r.next_outbox) j
        (fresh_item now (outbox_id r.next_outbox) topic id payload) r.outbox,
    o.sound j item,
    eq_iff (outbox_id r.next_outbox) j,
  );
  keyed = λ j item e. ground (
    arith,
    lookup-insert (outbox_id r.next_outbox) j
        (fresh_item now (outbox_id r.next_outbox) topic id payload) r.outbox,
    o.keyed j item,
    eq_iff (outbox_id r.next_outbox) j,
  );
}

-- A new message leaves the stored ones alone.
pub lookup-put_outbox :
    (now : Time) (topic agg : String) (payload : RawMessage) (id : String) (item : MemoryOutbox)
    (r : MemoryRepository)
    → IsOrderly r
    → lookup id r.outbox ≡ some item
    → lookup id (put_outbox now topic agg payload r).outbox ≡ some item
unfolding put_outbox
lookup-put_outbox now topic agg payload id item r o e = ground (
  arith,
  lookup-insert (outbox_id r.next_outbox) id
      (fresh_item now (outbox_id r.next_outbox) topic agg payload) r.outbox,
  o.unused r.next_outbox (omega arith),
  eq_iff (outbox_id r.next_outbox) id,
)

module _ (lease : Duration) (May : String → Type 0)
    (named : (owner : String) → May owner → IsNamed owner) where
  Change-IsSound :
      {now : Time} {old new : MemoryOutbox}
      → IsSound old
      → Change lease May now old new
      → IsSound new
  unfolding claimable
  Change-IsSound s (claims owner topics may h) = ground arith
  Change-IsSound s (renews owner may h) = ground arith
  Change-IsSound s (completes owner may h) = ground (arith, named owner may)
  Change-IsSound s (retries owner at may h) = ground arith
  Change-IsSound s (gives_up owner may h) = ground (arith, named owner may)

  Change-id :
      {now : Time} {old new : MemoryOutbox}
      → Change lease May now old new
      → new.message.id ≡ old.message.id
  Change-id (claims owner topics may h) = refl
  Change-id (renews owner may h) = refl
  Change-id (completes owner may h) = refl
  Change-id (retries owner at may h) = refl
  Change-id (gives_up owner may h) = refl

  insert-IsOrderly :
      (id : String) (old new : MemoryOutbox) (r : MemoryRepository)
      → IsOrderly r
      → lookup id r.outbox ≡ some old
      → IsSound new
      → new.message.id ≡ id
      → IsOrderly (record r { outbox = insert id new r.outbox })
  insert-IsOrderly id old new r o e s n = record {
    unused = λ k h.
        ground (
          arith,
          lookup-insert id (outbox_id k) new r.outbox,
          o.unused k h,
          eq_iff id (outbox_id k),
        );
    sound =
        λ j item f. ground (arith, lookup-insert id j new r.outbox, o.sound j item, eq_iff id j);
    keyed =
        λ j item f. ground (arith, lookup-insert id j new r.outbox, o.keyed j item, eq_iff id j);
  }

  pub Step-IsOrderly : {m u : Moment} → IsOrderly m.repo → Step lease May m u → IsOrderly u.repo
  Step-IsOrderly {m} {u} o st = by_effect (Step-Effect lease May st)
    where
      by_effect : Effect lease May m u → IsOrderly u.repo
      by_effect (idle _ same) = subst IsOrderly (sym same) o
      by_effect (adds topic id payload _ same) =
          subst IsOrderly (sym same) (put_outbox-IsOrderly m.now topic id payload m.repo o)
      by_effect (touches id old new _ stored change same) = subst IsOrderly (sym same) (
          insert-IsOrderly id old new m.repo o stored
            (Change-IsSound (o.sound id old stored) change)
            (Change-id change ∙ o.keyed id old stored))

  -- Whatever calls the owners make, in any order and at any times, an orderly outbox stays orderly: the next id
  -- is unused, every message is stored under its own id, a settled message is not locked, and
  -- none is both published and given up. The condition is that the owners are named.
  pub Reach-IsOrderly : {m u : Moment} → IsOrderly m.repo → Reach lease May m u → IsOrderly u.repo
  Reach-IsOrderly o here = o
  Reach-IsOrderly o (next r st) = Step-IsOrderly (Reach-IsOrderly o r) st

  not_changed :
      {now : Time} {old new : MemoryOutbox}
      → IsSound old
      → (old.published || old.failed) ≡ true
      → Change lease May now old new
      → ⊥
  unfolding claimable
  not_changed s h (claims owner topics may c) = ground arith
  not_changed s h (renews owner may c) = ground arith
  not_changed s h (completes owner may c) = ground (arith, named owner may)
  not_changed s h (retries owner at may c) = ground (arith, named owner may)
  not_changed s h (gives_up owner may c) = ground (arith, named owner may)

  Step-settled :
      {m u : Moment} (id : String) (item : MemoryOutbox)
      → IsOrderly m.repo
      → lookup id m.repo.outbox ≡ some item
      → (item.published || item.failed) ≡ true
      → Step lease May m u
      → lookup id u.repo.outbox ≡ some item
  Step-settled {m} {u} id item o e h st = by_effect (Step-Effect lease May st)
    where
      by_effect : Effect lease May m u → lookup id u.repo.outbox ≡ some item
      by_effect (idle _ same) = subst (λ r. lookup id r.outbox ≡ some item) (sym same) e
      by_effect (adds topic agg payload _ same) =
          subst (λ r. lookup id r.outbox ≡ some item) (sym same)
            (lookup-put_outbox m.now topic agg payload id item m.repo o e)
      by_effect (touches j old new _ stored change same) =
          subst (λ r. lookup id r.outbox ≡ some item) (sym same)
            (lookup-insert_ne j id new m.repo.outbox
                (λ at. not_changed (o.sound j old stored) (settled at) change)
              ∙ e)
        where
          settled : id ≡ j → (old.published || old.failed) ≡ true
          settled at = ground (arith, at, e, stored, h)

  -- A message that was published or given up stays as it is for ever, whatever named owners do to
  -- an outbox that is orderly.
  pub Reach-settled :
      {m u : Moment} (id : String) (item : MemoryOutbox)
      → IsOrderly m.repo
      → lookup id m.repo.outbox ≡ some item
      → (item.published || item.failed) ≡ true
      → Reach lease May m u
      → lookup id u.repo.outbox ≡ some item
  Reach-settled id item o e h here = e
  Reach-settled id item o e h (next r st) =
      Step-settled id item (Reach-IsOrderly o r) (Reach-settled id item o e h r) h st
