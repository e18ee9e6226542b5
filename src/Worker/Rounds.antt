-- ===== src/Worker/Rounds.antt =====
-- A worker that claims a message settles it.
use parity_lab.Prelude.{
  ℕ, String, Bytes, Bool, true, false, List, some, string_eq, ◌||◌, ◌≡◌, refl, sym, ap, subst, ◌∙◌,
  arith,
}
use parity_lab.Prelude.Table.{lookup, insert, lookup-insert_self}
use parity_lab.Failure.{Try}
use parity_lab.Domain.{Time}
use parity_lab.Engine.Records.{Digest, OutboxMessage}
use parity_lab.Engine.Memory.{MemoryRepository, MemoryOutbox}
use parity_lab.Engine.Memory.Outbox.{claim_outbox, claimable, locked_for}
use parity_lab.Engine.Memory.Outbox.Claims.{claim_outbox-Claims}
use parity_lab.Engine.Memory.Outbox.Settling.{IsOrderly}
use parity_lab.Verification.Relay.{Context}
use parity_lab.Worker.{Config, with_heartbeat, settled, worker_topics, run_once}
use parity_lab.Worker.Jobs.{process}
use parity_lab.Worker.Frame.{process-outbox}
use parity_lab.Worker.Settling.{IsHeld, Settles, heartbeats-IsHeld, settled-Settles}

some-injective : {A : Type 0} {a b : A} → some a ≡ some b → a ≡ b
some-injective h = grind arith

pub claimable-open :
    (topics : List String) (lease now : Time) (item : MemoryOutbox)
    → claimable topics lease now item ≡ true
    → (item.published || item.failed) ≡ false
unfolding claimable
claimable-open topics lease now item e = ground (arith, e)

module _ (hmac : String → String → Bytes) (sha256 : String → Digest) (secret : String)
    (config : Config) where
  -- the state after the claim
  abbrev pub after_claim : Time → MemoryRepository → MemoryRepository
  after_claim claimed r = (claim_outbox claimed config.id config.lease worker_topics r).1

  pub claim-IsHeld :
      (claimed : Time) (r : MemoryRepository) {job : OutboxMessage}
      → ((id : String) (item : MemoryOutbox)
          → lookup id r.outbox ≡ some item
          → item.message.id ≡ id)
      → (claim_outbox claimed config.id config.lease worker_topics r).0 ≡ some job
      → IsHeld job.id config.id job.attempts (after_claim claimed r)
  claim-IsHeld claimed r {job} keyed h =
      let (id, item, c) = claim_outbox-Claims claimed config.id config.lease worker_topics r h in
      let same : (locked_for config.id claimed item).message ≡ job =
        some-injective (sym c.message ∙ h) in
      subst (λ m. IsHeld m.id config.id m.attempts (after_claim claimed r)) same
        (record {
          item = locked_for config.id claimed item;
          stored =
              ap (λ s. lookup item.message.id s.outbox) c.state
              ∙ ap (λ k. lookup k (insert id (locked_for config.id claimed item) r.outbox))
                  (keyed id item c.stored)
              ∙ lookup-insert_self id _ r.outbox;
          open_ = claimable-open worker_topics config.lease claimed item c.eligible;
          locked = refl;
          attempted = refl;
        })

  pub IsHeld-outbox :
      {id owner : String} {attempts : ℕ} {r s : MemoryRepository}
      → IsHeld id owner attempts r
      → s.outbox ≡ r.outbox
      → IsHeld id owner attempts s
  IsHeld-outbox h same = record {
    item = h.item;
    stored = ap (lookup _) same ∙ h.stored;
    open_ = h.open_;
    locked = h.locked;
    attempted = h.attempted;
  }

  -- the run of a worker from the claim on
  abbrev pub finish :
      Time
      → List Time
      → OutboxMessage
      → Try (Unit {0}) × MemoryRepository
      → (Bool × Try (Unit {0})) × MemoryRepository
  finish ended ticks job out =
      let (answer, r2) = with_heartbeat ticks config.id job out in
      let (final, r3) = settled ended config job answer r2 in ((true, final), r3)

  finish-Settles :
      (ended : Time) (ticks : List Time) (job : OutboxMessage) (answer : Try (Unit {0}))
      (r : MemoryRepository)
      → IsHeld job.id config.id job.attempts r
      → let out = finish ended ticks job (answer, r) in
        (out.0.0 ≡ true) × Settles ended config job.attempts answer job.id (out.0.1, out.1)
  unfolding with_heartbeat
  finish-Settles ended ticks job answer r h =
      let (alive, held) = heartbeats-IsHeld ticks job.id config.id job.attempts r h in
      rw (alive, with_heartbeat) (refl, settled-Settles ended config job _ held answer)

  -- A worker that finds a message to claim settles it and reports no error, however the job ended
  -- and whenever its heartbeats ticked: the lease is released; the message is published exactly if
  -- the job succeeded, given up exactly after a permanent failure or when no attempt is left, and
  -- otherwise waits for the delay of its attempts, counted from the end of the job. The
  -- condition is that the outbox is orderly and that only this worker acts meanwhile.
  pub run_once-Settles :
      (ctx : Context) (claimed : Time) (ticks : List Time) (ended : Time) (r : MemoryRepository)
      {job : OutboxMessage}
      → IsOrderly r
      → (claim_outbox claimed config.id config.lease worker_topics r).0 ≡ some job
      → let out = run_once hmac sha256 secret config ctx claimed ticks ended r in
        (out.0.0 ≡ true)
        × Settles ended config job.attempts
            (process hmac sha256 secret ctx claimed job (after_claim claimed r)).0
            job.id
            (out.0.1, out.1)
  unfolding run_once
  run_once-Settles ctx claimed ticks ended r {job} o h =
      rw (h, run_once)
        (finish-Settles ended ticks job _ _ (
          IsHeld-outbox (claim-IsHeld claimed r o.keyed h)
            (process-outbox hmac sha256 secret ctx claimed job (after_claim claimed r))))
