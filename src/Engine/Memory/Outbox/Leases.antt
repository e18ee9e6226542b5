-- ===== src/Engine/Memory/Outbox/Leases.antt =====
-- A lease excludes the other owners until it runs out.
use parity_lab.Prelude.{
  ◌+◌, ◌≤◌, String, false, List, some, string_eq, ◌≡◌, sym, ◌∙◌, ◌≢◌, arith, eq_iff, subst,
}
use parity_lab.Prelude.Table.{lookup, lookup-insert_ne}
use parity_lab.Domain.{Time, Duration}
use parity_lab.Engine.Memory.{MemoryOutbox}
use parity_lab.Engine.Memory.Outbox.{claimable}
use parity_lab.Engine.Memory.Outbox.Steps.{
  Moment, Step, Reach, here, next, Change, claims, renews, completes, retries, gives_up, Effect,
  idle, adds, touches, Step-Effect,
}
use parity_lab.Engine.Memory.Outbox.Settling.{
  IsOrderly, IsNamed, Reach-IsOrderly, lookup-put_outbox,
}

-- the owners other than the holder
abbrev pub IsOther : String → String → Type 0
IsOther holder owner = IsNamed owner × (owner ≢ holder)

module _ (lease : Duration) (holder : String) (holder_named : IsNamed holder) where
  -- the item is locked by the holder, and its lease runs at `now`
  pub record Holds (now : Time) (item : MemoryOutbox) : Type 0 where
    pub locked : item.message.locked_by ≡ holder
    pub running : now ≤ item.message.locked_at + lease

  -- A running lease makes an item ineligible for every claim.
  held-not_claimable :
      (topics : List String) {now : Time} {item : MemoryOutbox}
      → Holds now item
      → claimable topics lease now item ≡ false
  unfolding claimable
  held-not_claimable topics {now} {item} h = ground (arith, eq_iff item.message.locked_by "")

  held-not_changed :
      {now : Time} {old new : MemoryOutbox}
      → Holds now old
      → Change lease (IsOther holder) now old new
      → ⊥
  unfolding claimable
  held-not_changed {old} s (claims owner topics may c) = ground (arith, held-not_claimable topics s)
  held-not_changed {old} s (renews owner may c) =
      ground (arith, may.1, eq_iff old.message.locked_by owner)
  held-not_changed s (completes owner may c) = ground (arith, may.1)
  held-not_changed s (retries owner at may c) = ground (arith, may.1)
  held-not_changed s (gives_up owner may c) = ground (arith, may.1)

  Step-clock : {m u : Moment} → Step lease (IsOther holder) m u → m.now ≤ u.now
  Step-clock {m} {u} st = by_effect (Step-Effect lease (IsOther holder) st)
    where
      by_effect : Effect lease (IsOther holder) m u → m.now ≤ u.now
      by_effect (idle h _) = h
      by_effect (adds _ _ _ same _) = omega arith
      by_effect (touches _ _ _ same _ _ _) = omega arith

  Step-held :
      {m u : Moment} (id : String) (item : MemoryOutbox)
      → IsOrderly m.repo
      → lookup id m.repo.outbox ≡ some item
      → Holds m.now item
      → Step lease (IsOther holder) m u
      → lookup id u.repo.outbox ≡ some item
  Step-held {m} {u} id item o e h st = by_effect (Step-Effect lease (IsOther holder) st)
    where
      by_effect : Effect lease (IsOther holder) m u → lookup id u.repo.outbox ≡ some item
      by_effect (idle _ same) = subst (λ r. lookup id r.outbox ≡ some item) (sym same) e
      by_effect (adds topic agg payload _ same) =
          subst (λ r. lookup id r.outbox ≡ some item) (sym same)
            (lookup-put_outbox m.now topic agg payload id item m.repo o e)
      by_effect (touches j old new _ stored change same) =
          subst (λ r. lookup id r.outbox ≡ some item) (sym same)
            (lookup-insert_ne j id new m.repo.outbox (λ at. held-not_changed (held at) change) ∙ e)
        where
          held : id ≡ j → Holds m.now old
          held at = ground (arith, at, e, stored, h.locked, h.running)

  -- Mutual exclusion: while a lease runs, the other owners change nothing of the message and no claim
  -- can take it. The outbox is orderly at the start, and the holder and the others are named.
  pub Reach-held :
      {m u : Moment} (id : String) (item : MemoryOutbox)
      → IsOrderly m.repo
      → lookup id m.repo.outbox ≡ some item
      → item.message.locked_by ≡ holder
      → Reach lease (IsOther holder) m u
      → u.now ≤ item.message.locked_at + lease
      → (lookup id u.repo.outbox ≡ some item)
        × ((topics : List String) → claimable topics lease u.now item ≡ false)
  Reach-held id item o e h here l =
      (e, λ topics. held-not_claimable topics (record { locked = h; running = l }))
  Reach-held id item o e h (next {t} {u} r st) l =
      let before = Step-clock st in
      let (kept, _) = Reach-held id item o e h r (omega arith) in
      (
        Step-held id item (Reach-IsOrderly lease (IsOther holder) (λ owner may. may.0) o r) kept
            (record { locked = h; running = omega arith }) st,
        λ topics. held-not_claimable topics (record { locked = h; running = l }),
      )
