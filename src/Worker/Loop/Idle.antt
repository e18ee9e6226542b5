-- ===== src/Worker/Loop/Idle.antt =====
-- The loop of a worker comes to rest.
use parity_lab.Prelude.{
  ℕ, zero, suc, ◌+◌, ◌-◌, ◌≤◌, ◌<◌, String, Bytes, Bool, true, false, List, [], ◌∷◌, none, some,
  string_eq, ◌≡◌, refl, sym, ap, subst, ◌∙◌, arith, inl, inr, Option-cases,
}
use parity_lab.Prelude.Table.{lookup, some-injective}
use parity_lab.Failure.{Try, ok}
use parity_lab.Domain.{Time}
use parity_lab.Engine.Records.{Digest, OutboxMessage}
use parity_lab.Engine.Memory.{MemoryRepository, MemoryOutbox}
use parity_lab.Engine.Memory.Outbox.{claim_outbox, claimable, locked_for}
use parity_lab.Engine.Memory.Outbox.Claims.{claim_outbox-Claims, claim_outbox-none}
use parity_lab.Worker.{Config, heartbeats, with_heartbeat, worker_topics, run_once}
use parity_lab.Worker.Jobs.{process}
use parity_lab.Worker.Frame.{process-outbox}
use parity_lab.Worker.Settling.{heartbeats-IsHeld}
use parity_lab.Worker.Rounds.{after_claim, claim-IsHeld, IsHeld-outbox, finish, claimable-open}
use parity_lab.Worker.Loop.{Turn, Drained, idle, cancelled, continued, round, drain, run}
use parity_lab.Worker.Loop.Budget.{
  budget, IsKeyed, insert-Changed, IsKept, heartbeats-budget, settled-IsSpent,
}

module _ (hmac : String → String → Bytes) (sha256 : String → Digest) (secret : String)
    (config : Config) where
  -- a round that found a message: no error, and less is left
  record IsProgress (r : MemoryRepository) (out : (Bool × Try (Unit {0})) × MemoryRepository)
      : Type 0 where
    processed : out.0 ≡ (true, ok tt)
    less : budget config.max_attempts out.1.outbox < budget config.max_attempts r.outbox
    keys : IsKeyed out.1.outbox

  -- a claimed message is held, and the claim spends one attempt of it
  record IsClaimed (job : OutboxMessage) (r s : MemoryRepository) : Type 0 where
    kept : IsKept config.max_attempts job.id config.id job.attempts s
    counted : 0 < job.attempts
    spent :
        budget config.max_attempts s.outbox + (1 + (config.max_attempts - (job.attempts - 1)))
        ≡ budget config.max_attempts r.outbox + (1 + (config.max_attempts - job.attempts))

  claim-IsClaimed :
      (claimed : Time) (r : MemoryRepository) {job : OutboxMessage}
      → IsKeyed r.outbox
      → (claim_outbox claimed config.id config.lease worker_topics r).0 ≡ some job
      → IsClaimed job r (after_claim hmac sha256 secret config claimed r)
  claim-IsClaimed claimed r {job} keys h =
      let (id, item, c) = claim_outbox-Claims claimed config.id config.lease worker_topics r h in
      let locked = locked_for config.id claimed item in
      let held = claim-IsHeld hmac sha256 secret config claimed r keys.keyed h in
      let same : locked.message ≡ job = some-injective (sym c.message ∙ h) in
      let changed = insert-Changed config.max_attempts id item locked r.outbox keys c.stored refl in
      let open_ = claimable-open worker_topics config.lease claimed item c.eligible in
      let attempted : item.message.attempts + 1 ≡ job.attempts = ap (λ m. m.attempts) same in
      record {
        kept = record {
          held = held;
          keys = subst (λ s. IsKeyed s.outbox) (sym c.state) changed.keys;
        };
        counted = omega (arith, attempted);
        spent = ground (
          arith,
          open_,
          attempted,
          changed.spent,
          ap (λ s. budget config.max_attempts s.outbox) c.state,
        );
      }

  finish-IsProgress :
      (ended : Time) (ticks : List Time) (job : OutboxMessage) (answer : Try (Unit {0}))
      (r before : MemoryRepository)
      → IsKept config.max_attempts job.id config.id job.attempts r
      → 0 < job.attempts
      → budget config.max_attempts r.outbox + (1 + (config.max_attempts - (job.attempts - 1)))
        ≡ budget config.max_attempts before.outbox + (1 + (config.max_attempts - job.attempts))
      → IsProgress before (finish hmac sha256 secret config ended ticks job (answer, r))
  unfolding with_heartbeat
  finish-IsProgress ended ticks job answer r before k some_ spent =
      let max = config.max_attempts in
      let alive = (heartbeats-IsHeld ticks job.id config.id job.attempts r k.held).0 in
      let (same, kept) = heartbeats-budget max job.id config.id job.attempts ticks r k in
      let s =
        settled-IsSpent ended config job (heartbeats ticks job.id config.id r).1 kept answer in
      rw (alive, with_heartbeat)
        (record {
          processed = ap (λ a. (true, a)) s.answered;
          less = ground (arith, s.spent, same, spent, some_);
          keys = s.keys;
        })

  round-IsProgress :
      (t : Turn) (r : MemoryRepository) {job : OutboxMessage}
      → IsKeyed r.outbox
      → (claim_outbox t.claimed config.id config.lease worker_topics r).0 ≡ some job
      → IsProgress r (round hmac sha256 secret config t r)
  unfolding run_once
  round-IsProgress t r {job} keys h =
      let c = claim-IsClaimed t.claimed r keys h in
      let s = after_claim hmac sha256 secret config t.claimed r in
      let out = process hmac sha256 secret t.ctx t.claimed job s in
      let frame = process-outbox hmac sha256 secret t.ctx t.claimed job s in
      rw (h, run_once)
        (finish-IsProgress t.ended t.ticks job out.0 out.1 r
          (record {
            held = IsHeld-outbox hmac sha256 secret config c.kept.held frame;
            keys = subst IsKeyed (sym frame) c.kept.keys;
          })
          c.counted
          (ap (λ o. budget config.max_attempts o + (1 + (config.max_attempts - (job.attempts - 1))))
              frame
            ∙ c.spent))

  round-idle :
      (t : Turn) (r : MemoryRepository)
      → (claim_outbox t.claimed config.id config.lease worker_topics r).0 ≡ none
      → round hmac sha256 secret config t r ≡ ((false, ok tt), r)
  unfolding run_once
  round-idle t r h =
      rw (h, run_once)
        (ap (λ s. ((false, ok tt), s))
          (claim_outbox-none t.claimed config.id config.lease worker_topics r h).0)

  -- rounds, counted from the `n`-th, that came to rest with nothing to claim
  pub record IsAtRest (n : ℕ) (turns : ℕ → Turn) (r : MemoryRepository) (d : Drained) : Type 0 where
    pub last : ℕ
    pub after : MemoryRepository
    pub ended : d ≡ idle last after
    pub rounds :
        last + budget config.max_attempts after.outbox ≤ n + budget config.max_attempts r.outbox
    pub keys : IsKeyed after.outbox
    pub nothing :
        (id : String) (item : MemoryOutbox)
        → lookup id after.outbox ≡ some item
        → claimable worker_topics config.lease (turns last).claimed item ≡ false

  drain-idle :
      (fuel n : ℕ) (turns : ℕ → Turn) (r after : MemoryRepository)
      → round hmac sha256 secret config (turns n) r ≡ ((false, ok tt), after)
      → drain hmac sha256 secret config (suc fuel) n turns r ≡ idle n after
  unfolding drain
  drain-idle fuel n turns r after is =
      ap (λ out. continued (drain hmac sha256 secret config fuel (n + 1) turns out.1) n out) is

  drain-processed :
      (fuel n : ℕ) (turns : ℕ → Turn) (r : MemoryRepository)
      → (round hmac sha256 secret config (turns n) r).0 ≡ (true, ok tt)
      → drain hmac sha256 secret config (suc fuel) n turns r
        ≡ drain hmac sha256 secret config fuel
            (n + 1)
            turns
            (round hmac sha256 secret config (turns n) r).1
  unfolding drain
  drain-processed fuel n turns r is =
      let next = (round hmac sha256 secret config (turns n) r).1 in
      let rest = drain hmac sha256 secret config fuel (n + 1) turns next in
      ap (λ answer. continued rest n (answer, next)) is

  -- The rounds of a worker come to rest without an error, whatever its jobs answer and its clocks show, in at
  -- most as many rounds as the open messages have attempts left, each counted once more; at the rest no
  -- stored message can be claimed. The conditions are that every message is stored under its id, that
  -- only this worker acts meanwhile, and that the fuel is above that bound.
  pub drain-IsAtRest :
      (fuel n : ℕ) (turns : ℕ → Turn) (r : MemoryRepository)
      → IsKeyed r.outbox
      → budget config.max_attempts r.outbox < fuel
      → IsAtRest n turns r (drain hmac sha256 secret config fuel n turns r)
  drain-IsAtRest zero n turns r keys enough = absurd (omega (arith, enough))
  drain-IsAtRest (suc fuel) n turns r keys enough =
      let claim = claim_outbox (turns n).claimed config.id config.lease worker_topics r in
      elim (Option-cases claim.0) [
        | inl nothing ↦ record {
          last = n;
          after = r;
          ended = drain-idle fuel n turns r r (round-idle (turns n) r nothing);
          rounds = omega arith;
          keys = keys;
          nothing =
              (claim_outbox-none (turns n).claimed config.id config.lease worker_topics r
                nothing).1;
        }
        | inr (job, found) ↦
            let p = round-IsProgress (turns n) r keys found in
            let next = (round hmac sha256 secret config (turns n) r).1 in
            let rest =
              drain-IsAtRest fuel (n + 1) turns next p.keys (omega (arith, p.less, enough)) in
            record {
              last = rest.last;
              after = rest.after;
              ended = drain-processed fuel n turns r p.processed ∙ rest.ended;
              rounds = omega (arith, rest.rounds, p.less);
              keys = rest.keys;
              nothing = rest.nothing;
            }
      ]

  -- `Run` ends only with its context, if it is given that fuel.
  run-cancelled :
      (fuel : ℕ) (ticks : List (ℕ → Turn)) (r : MemoryRepository)
      → IsKeyed r.outbox
      → budget config.max_attempts r.outbox < fuel
      → (after : MemoryRepository) × (run hmac sha256 secret config fuel ticks r ≡ cancelled after)
  unfolding run
  run-cancelled fuel [] r keys enough = (r, refl)
  run-cancelled fuel (turns ∷ ticks) r keys enough =
      let rest = drain-IsAtRest fuel 0 turns r keys enough in
      rw (rest.ended, run)
        (run-cancelled fuel ticks rest.after rest.keys (omega (arith, rest.rounds, enough)))
