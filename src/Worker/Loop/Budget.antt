-- ===== src/Worker/Loop/Budget.antt =====
-- The rounds that the open messages of an outbox can still take.
use parity_lab.Prelude.{
  ℕ, ◌+◌, ◌-◌, ◌<◌, String, true, List, [], ◌∷◌, some, string_eq, ◌==◌, eq_iff, if◌then◌else◌, ◌||◌,
  leb, ◌≡◌, refl, sym, subst, ◌⊎◌, ap, ◌∙◌, arith, inl, inr, Bool-cases,
}
use parity_lab.Prelude.Table.{Table, lookup, insert, lookup-insert}
use parity_lab.Failure.{
  Try, ok, err, permanent, message, idempotency_conflict, webhook_conflict, account_exists,
}
use parity_lab.Domain.{Time}
use parity_lab.Engine.Records.{OutboxMessage}
use parity_lab.Engine.Memory.{MemoryRepository, MemoryOutbox}
use parity_lab.Engine.Memory.Outbox.{
  renewable, heartbeat_outbox, settle, complete_outbox, retry_outbox, fail_outbox, completed,
  retried, given_up,
}
use parity_lab.Worker.{Config, heartbeats, settled, retry_delay}
use parity_lab.Worker.Settling.{IsHeld, heartbeat-IsHeld, settle-held}

-- a message that is open may be claimed once, and once more for every attempt that is left
abbrev pub weight : ℕ → MemoryOutbox → ℕ
weight max item = if item.published || item.failed then 0 else 1 + (max - item.message.attempts)

unfoldable pub budget : ℕ → Table String MemoryOutbox → ℕ
budget max [] = 0
budget max ((id, item) ∷ outbox) = weight max item + budget max outbox

-- every message is stored under its id
pub record IsKeyed (outbox : Table String MemoryOutbox) : Type 0 where
  pub keyed :
      (id : String) (item : MemoryOutbox) → lookup id outbox ≡ some item → item.message.id ≡ id

budget-insert :
    (max : ℕ) (id : String) (old new : MemoryOutbox) (outbox : Table String MemoryOutbox)
    → lookup id outbox ≡ some old
    → budget max (insert id new outbox) + weight max old ≡ budget max outbox + weight max new
unfolding budget insert lookup
budget-insert max id old new [] h = cc
budget-insert max id old new ((j, item) ∷ outbox) h = elim (Bool-cases (j == id)) [
  | inl same ↦
      let is : item ≡ old = ground (arith, h, same) in rw (same, insert, budget, is) (omega arith)
  | inr other ↦
      let deeper : lookup id outbox ≡ some old = ground (arith, h, other) in
      rw (other, insert, budget) (omega (arith, budget-insert max id old new outbox deeper))
]

insert-IsKeyed :
    (id : String) (new : MemoryOutbox) {outbox : Table String MemoryOutbox}
    → IsKeyed outbox
    → new.message.id ≡ id
    → IsKeyed (insert id new outbox)
insert-IsKeyed id new {outbox} h same = record {
  keyed = λ j item e.
      ground (arith, e, same, lookup-insert id j new outbox, eq_iff id j, h.keyed j item);
}

-- an entry that was written over
pub record Changed (max : ℕ) (old new : MemoryOutbox) (before after : Table String MemoryOutbox)
    : Type 0 where
  pub spent : budget max after + weight max old ≡ budget max before + weight max new
  pub keys : IsKeyed after

pub insert-Changed :
    (max : ℕ) (id : String) (old new : MemoryOutbox) (outbox : Table String MemoryOutbox)
    → IsKeyed outbox
    → lookup id outbox ≡ some old
    → new.message.id ≡ old.message.id
    → Changed max old new outbox (insert id new outbox)
insert-Changed max id old new outbox keys e same = record {
  spent = budget-insert max id old new outbox e;
  keys = insert-IsKeyed id new keys (same ∙ keys.keyed id old e);
}

module _ (max : ℕ) (id owner : String) (attempts : ℕ) where
  -- a message that is held, in an outbox whose messages are stored under their ids
  pub record IsKept (r : MemoryRepository) : Type 0 where
    pub held : IsHeld id owner attempts r
    pub keys : IsKeyed r.outbox

  weight-held :
      {r : MemoryRepository} (h : IsHeld id owner attempts r)
      → weight max h.item ≡ 1 + (max - attempts)
  weight-held h = rw (h.open_, h.attempted) refl

  heartbeat-budget :
      (now : Time) (r : MemoryRepository)
      → IsKept r
      → (budget max (heartbeat_outbox now id owner r).1.outbox ≡ budget max r.outbox)
        × IsKept (heartbeat_outbox now id owner r).1
  unfolding heartbeat_outbox
  heartbeat-budget now r k =
      let h = k.held in
      let may : renewable owner h.item ≡ true =
        ground (arith, h.open_, h.locked, eq_iff h.item.message.locked_by owner) in
      let beat : MemoryOutbox = record h.item {
        message = record h.item.message { locked_at = now };
      } in
      let c = insert-Changed max id h.item beat r.outbox k.keys h.stored refl in
      let next = (heartbeat-IsHeld now id owner attempts r h).1 in
      let is : (heartbeat_outbox now id owner r).1.outbox ≡ insert id beat r.outbox =
        rw (h.stored, heartbeat_outbox, may) refl in
      (
        ap (budget max) is ∙ omega (arith, c.spent),
        record { held = next; keys = subst IsKeyed (sym is) c.keys },
      )

  pub heartbeats-budget :
      (ticks : List Time) (r : MemoryRepository)
      → IsKept r
      → (budget max (heartbeats ticks id owner r).1.outbox ≡ budget max r.outbox)
        × IsKept (heartbeats ticks id owner r).1
  unfolding heartbeats
  heartbeats-budget [] r k = (refl, k)
  heartbeats-budget (now ∷ ticks) r k =
      let (same, kept) = heartbeat-budget now r k in
      let rest = heartbeats-budget ticks (heartbeat_outbox now id owner r).1 kept in
      rw ((heartbeat-IsHeld now id owner attempts r k.held).0, heartbeats) (rest.0 ∙ same, rest.1)

-- what a settled job leaves: no error, and a message that is closed or that has attempts left
pub record IsSpent (max attempts : ℕ) (r : MemoryRepository)
    (out : Try (Unit {0}) × MemoryRepository) : Type 0 where
  pub answered : out.0 ≡ ok tt
  pub spent :
      (budget max out.1.outbox + (1 + (max - attempts)) ≡ budget max r.outbox)
      ⊎ ((attempts < max) × (budget max out.1.outbox ≡ budget max r.outbox))
  pub keys : IsKeyed out.1.outbox

module _ (ended : Time) (config : Config) (job : OutboxMessage) (r : MemoryRepository)
    (k : IsKept config.max_attempts job.id config.id job.attempts r) where
  settle-IsSpent :
      (change : MemoryOutbox → MemoryOutbox)
      → (change k.held.item).message.id ≡ k.held.item.message.id
      → (weight config.max_attempts (change k.held.item) ≡ 0)
        ⊎ ((job.attempts < config.max_attempts)
            × (weight config.max_attempts (change k.held.item)
                ≡ weight config.max_attempts k.held.item))
      → IsSpent config.max_attempts job.attempts r (settle change job.id config.id r)
  settle-IsSpent change same less =
      let h = k.held in
      let c =
        insert-Changed config.max_attempts job.id h.item (change h.item) r.outbox k.keys h.stored
          same in
      subst (IsSpent config.max_attempts job.attempts r)
        (sym (settle-held change job.id config.id r h.item h.stored h.locked))
        (record {
          answered = refl;
          spent = ground (
            arith,
            less,
            c.spent,
            weight-held config.max_attempts job.id config.id job.attempts h,
          );
          keys = c.keys;
        })

  closed-IsSpent : IsSpent config.max_attempts job.attempts r (fail_outbox job.id config.id r)
  unfolding fail_outbox
  closed-IsSpent = settle-IsSpent given_up refl (inl (ground (arith, k.held.open_)))

  given_up_or_retried-IsSpent : IsSpent config.max_attempts job.attempts r (
      if leb config.max_attempts job.attempts
      then fail_outbox job.id config.id r
      else retry_outbox ended job.id config.id (retry_delay job.attempts) r)
  unfolding retry_outbox
  given_up_or_retried-IsSpent = elim (Bool-cases (leb config.max_attempts job.attempts)) [
    | inl last ↦ rw (last) closed-IsSpent
    | inr more ↦ rw (more) (
        settle-IsSpent (retried (ended + retry_delay job.attempts)) refl
          (inr (ground (arith, more), refl)))
  ]

  pub settled-IsSpent :
      (answer : Try (Unit {0}))
      → IsSpent config.max_attempts job.attempts r (settled ended config job answer r)
  unfolding settled complete_outbox
  settled-IsSpent (ok done) = settle-IsSpent completed refl (inl (ground (arith, k.held.open_)))
  settled-IsSpent (err (permanent code)) = closed-IsSpent
  settled-IsSpent (err idempotency_conflict) = given_up_or_retried-IsSpent
  settled-IsSpent (err webhook_conflict) = given_up_or_retried-IsSpent
  settled-IsSpent (err account_exists) = given_up_or_retried-IsSpent
  settled-IsSpent (err (message text)) = given_up_or_retried-IsSpent
