-- ===== src/Engine/Memory/Outbox/Steps.antt =====
-- The outbox as a state machine: the calls of `memory_repository.go` in any order, by any owners, at a
-- clock that does not run backwards.
use parity_lab.Prelude.{
  ◌+◌, ◌≤◌, String, true, List, some, ◌==◌, string_eq, ◌≡◌, refl, arith, inl, inr, Option-cases,
  Bool-cases, eq_iff,
}
use parity_lab.Prelude.Table.{lookup, insert}
use parity_lab.Domain.{Time, Duration}
use parity_lab.Engine.Records.{RawMessage}
use parity_lab.Engine.Memory.{MemoryRepository, MemoryOutbox, put_outbox}
use parity_lab.Engine.Memory.Outbox.{
  claimable, renewable, locked_for, claim_outbox, heartbeat_outbox, complete_outbox, retry_outbox,
  fail_outbox, completed, retried, given_up, settle,
}
use parity_lab.Engine.Memory.Outbox.Claims.{claim_outbox-Claims, claim_outbox-none}

pub record Moment : Type 0 where
  pub now : Time
  pub repo : MemoryRepository

module _ (lease : Duration) (May : String → Type 0) where
  -- one call by an owner that may act, the arrival of a message, or the passing of time
  pub data Step (m : Moment) : Moment → Type 0 where
    wait : (t : Time) → m.now ≤ t → Step m (record m { now = t })
    put :
        (topic id : String) (payload : RawMessage)
        → Step m (record m { repo = put_outbox m.now topic id payload m.repo })
    claim :
        (owner : String) (topics : List String)
        → May owner
        → Step m (record m { repo = (claim_outbox m.now owner lease topics m.repo).1 })
    heartbeat :
        (id owner : String)
        → May owner
        → Step m (record m { repo = (heartbeat_outbox m.now id owner m.repo).1 })
    complete :
        (id owner : String)
        → May owner
        → Step m (record m { repo = (complete_outbox id owner m.repo).1 })
    retry :
        (id owner : String) (delay : Duration)
        → May owner
        → Step m (record m { repo = (retry_outbox m.now id owner delay m.repo).1 })
    fail :
        (id owner : String)
        → May owner
        → Step m (record m { repo = (fail_outbox id owner m.repo).1 })

  pub data Reach (m : Moment) : Moment → Type 0 where
    here : Reach m m
    next : {t u : Moment} → Reach m t → Step t u → Reach m u

  -- what a call may do to one item at a time
  pub data Change (now : Time) (old : MemoryOutbox) : MemoryOutbox → Type 0 where
    claims :
        (owner : String) (topics : List String)
        → May owner
        → claimable topics lease now old ≡ true
        → Change now old (locked_for owner now old)
    renews :
        (owner : String)
        → May owner
        → renewable owner old ≡ true
        → Change now old (record old { message = record old.message { locked_at = now } })
    completes :
        (owner : String)
        → May owner
        → old.message.locked_by ≡ owner
        → Change now old (completed old)
    retries :
        (owner : String) (at : Time)
        → May owner
        → old.message.locked_by ≡ owner
        → Change now old (retried at old)
    gives_up :
        (owner : String) → May owner → old.message.locked_by ≡ owner → Change now old (given_up old)

  -- A step changes one stored item, or adds one under the next id, or changes none.
  pub data Effect (m u : Moment) : Type 0 where
    idle : m.now ≤ u.now → u.repo ≡ m.repo → Effect m u
    adds :
        (topic id : String) (payload : RawMessage)
        → u.now ≡ m.now
        → u.repo ≡ put_outbox m.now topic id payload m.repo
        → Effect m u
    touches :
        (id : String) (old new : MemoryOutbox)
        → u.now ≡ m.now
        → lookup id m.repo.outbox ≡ some old
        → Change m.now old new
        → u.repo ≡ record m.repo { outbox = insert id new m.repo.outbox }
        → Effect m u

  settle-Effect :
      (change : MemoryOutbox → MemoryOutbox) (id owner : String) (m : Moment)
      → ((old : MemoryOutbox) → old.message.locked_by ≡ owner → Change m.now old (change old))
      → Effect m (record m { repo = (settle change id owner m.repo).1 })
  unfolding settle
  settle-Effect change id owner m allowed = elim (Option-cases (lookup id m.repo.outbox)) [
    | inl missing ↦ idle (omega arith) (rw (missing, settle))
    | inr (item, found) ↦ elim (Bool-cases (item.message.locked_by == owner)) [
      | inl held ↦
          touches id item (change item) refl found (allowed item ((eq_iff _ _).0 held))
            (rw (found, settle, held))
      | inr other ↦ idle (omega arith) (rw (found, settle, other))
    ]
  ]

  heartbeat-Effect :
      (id owner : String) (m : Moment)
      → May owner
      → Effect m (record m { repo = (heartbeat_outbox m.now id owner m.repo).1 })
  unfolding heartbeat_outbox
  heartbeat-Effect id owner m may = elim (Option-cases (lookup id m.repo.outbox)) [
    | inl missing ↦ idle (omega arith) (rw (missing, heartbeat_outbox))
    | inr (item, found) ↦ elim (Bool-cases (renewable owner item)) [
      | inl held ↦
          touches id item _ refl found (renews owner may held) (rw (found, heartbeat_outbox, held))
      | inr other ↦ idle (omega arith) (rw (found, heartbeat_outbox, other))
    ]
  ]

  claim-Effect :
      (owner : String) (topics : List String) (m : Moment)
      → May owner
      → Effect m (record m { repo = (claim_outbox m.now owner lease topics m.repo).1 })
  claim-Effect owner topics m may =
      elim (Option-cases (claim_outbox m.now owner lease topics m.repo).0) [
        | inl nothing ↦
            idle (omega arith) (claim_outbox-none m.now owner lease topics m.repo nothing).0
        | inr (msg, found) ↦
            let (id, item, c) = claim_outbox-Claims m.now owner lease topics m.repo found in
            touches id item (locked_for owner m.now item) refl c.stored
              (claims owner topics may c.eligible) c.state
      ]

  pub Step-Effect : {m u : Moment} → Step m u → Effect m u
  unfolding complete_outbox retry_outbox fail_outbox
  Step-Effect (wait t h) = idle h refl
  Step-Effect (put topic id payload) = adds topic id payload refl refl
  Step-Effect {m} (claim owner topics may) = claim-Effect owner topics m may
  Step-Effect {m} (heartbeat id owner may) = heartbeat-Effect id owner m may
  Step-Effect {m} (complete id owner may) =
      settle-Effect completed id owner m (λ old h. completes owner may h)
  Step-Effect {m} (retry id owner delay may) =
      settle-Effect (retried (m.now + delay)) id owner m (λ old h. retries owner _ may h)
  Step-Effect {m} (fail id owner may) =
      settle-Effect given_up id owner m (λ old h. gives_up owner may h)
