-- ===== src/Worker/Settling.antt =====
-- A worker that has claimed a message settles it.
use parity_lab.Prelude.{
  ℕ, ◌+◌, String, Bool, true, false, List, [], ◌∷◌, none, some, string_eq, eq_iff, if◌then◌else◌,
  ◌||◌, leb, ◌≡◌, refl, sym, subst, ◌∙◌, arith, ◌↔◌, inl, inr, Bool-cases,
}
use parity_lab.Prelude.Table.{lookup, insert, lookup-insert_self}
use parity_lab.Failure.{
  Failure, Try, ok, err, permanent, message, idempotency_conflict, webhook_conflict, account_exists,
}
use parity_lab.Domain.{Time}
use parity_lab.Engine.Records.{OutboxMessage}
use parity_lab.Engine.Memory.{MemoryRepository, MemoryOutbox}
use parity_lab.Engine.Memory.Outbox.{
  renewable, heartbeat_outbox, settle, complete_outbox, retry_outbox, fail_outbox, completed,
  retried, given_up,
}
use parity_lab.Worker.{Config, heartbeats, settled, retry_delay}

-- the item `id` is locked by the owner and open
pub record IsHeld (id owner : String) (attempts : ℕ) (r : MemoryRepository) : Type 0 where
  pub item : MemoryOutbox
  pub stored : lookup id r.outbox ≡ some item
  pub open_ : (item.published || item.failed) ≡ false
  pub locked : item.message.locked_by ≡ owner
  pub attempted : item.message.attempts ≡ attempts

pub heartbeat-IsHeld :
    (now : Time) (id owner : String) (attempts : ℕ) (r : MemoryRepository)
    → IsHeld id owner attempts r
    → ((heartbeat_outbox now id owner r).0 ≡ true)
      × IsHeld id owner attempts (heartbeat_outbox now id owner r).1
unfolding heartbeat_outbox
heartbeat-IsHeld now id owner attempts r h =
    rw (h.stored, heartbeat_outbox, may)
      (
        refl,
        record {
          item = _;
          stored = lookup-insert_self id _ r.outbox;
          open_ = h.open_;
          locked = h.locked;
          attempted = h.attempted;
        },
      )
  where
    may : renewable owner h.item ≡ true
    may = ground (arith, h.open_, h.locked, eq_iff h.item.message.locked_by owner)

pub heartbeats-IsHeld :
    (ticks : List Time) (id owner : String) (attempts : ℕ) (r : MemoryRepository)
    → IsHeld id owner attempts r
    → ((heartbeats ticks id owner r).0 ≡ none)
      × IsHeld id owner attempts (heartbeats ticks id owner r).1
unfolding heartbeats
heartbeats-IsHeld [] id owner attempts r h = (refl, h)
heartbeats-IsHeld (now ∷ ticks) id owner attempts r h =
    let (alive, h') = heartbeat-IsHeld now id owner attempts r h in
    rw (alive, heartbeats) (heartbeats-IsHeld ticks id owner attempts _ h')

pub settle-held :
    (change : MemoryOutbox → MemoryOutbox) (id owner : String) (r : MemoryRepository)
    (item : MemoryOutbox)
    → lookup id r.outbox ≡ some item
    → item.message.locked_by ≡ owner
    → settle change id owner r ≡ (ok tt, record r { outbox = insert id (change item) r.outbox })
unfolding settle
settle-held change id owner r item e l = rw (e, settle, (eq_iff item.message.locked_by owner).1 l)

-- the answers that give a message up: a permanent failure, or any other with no attempt left
abbrev pub gives_up : Config → ℕ → Try (Unit {0}) → Bool
gives_up config attempts (ok done) = false
gives_up config attempts (err (permanent code)) = true
gives_up config attempts (err idempotency_conflict) = leb config.max_attempts attempts
gives_up config attempts (err webhook_conflict) = leb config.max_attempts attempts
gives_up config attempts (err account_exists) = leb config.max_attempts attempts
gives_up config attempts (err (message text)) = leb config.max_attempts attempts

-- what becomes of a message after a job: its lease is released; it is published exactly after a
-- success and given up exactly as above; otherwise it waits for the delay of its attempts
pub record IsSettled (ended : Time) (config : Config) (attempts : ℕ) (answer : Try (Unit {0}))
    (item : MemoryOutbox) : Type 0 where
  pub released : item.message.locked_by ≡ ""
  pub published : (item.published ≡ true) ↔ (answer ≡ ok tt)
  pub failed : item.failed ≡ gives_up config attempts answer
  pub later :
      (item.published || item.failed) ≡ false → item.available_at ≡ ended + retry_delay attempts

-- the item of a job that was settled without an error
abbrev pub Settles :
    Time → Config → ℕ → Try (Unit {0}) → String → Try (Unit {0}) × MemoryRepository → Type 0
Settles ended config attempts answer id out =
    (out.0 ≡ ok tt)
    × (item : MemoryOutbox) × (lookup id out.1.outbox ≡ some item)
    × IsSettled ended config attempts answer item

module _ (ended : Time) (config : Config) (job : OutboxMessage) (r : MemoryRepository)
    (h : IsHeld job.id config.id job.attempts r) where
  settle-Settles :
      (change : MemoryOutbox → MemoryOutbox) (answer : Try (Unit {0}))
      → IsSettled ended config job.attempts answer (change h.item)
      → Settles ended config job.attempts answer job.id (settle change job.id config.id r)
  settle-Settles change answer s =
      subst (Settles ended config job.attempts answer job.id)
        (sym (settle-held change job.id config.id r h.item h.stored h.locked))
        (refl, change h.item, lookup-insert_self job.id _ r.outbox, s)

  completed-IsSettled : IsSettled ended config job.attempts (ok tt) (completed h.item)
  completed-IsSettled = record {
    released = refl;
    published = (λ _. refl, λ _. refl);
    failed = ground (arith, h.open_);
    later = λ e. ground (arith, e);
  }

  given_up-IsSettled :
      (e : Failure)
      → gives_up config job.attempts (err e) ≡ true
      → IsSettled ended config job.attempts (err e) (given_up h.item)
  given_up-IsSettled e g = record {
    released = refl;
    published = ground (arith, h.open_);
    failed = sym g;
    later = λ e. ground (arith, e);
  }

  retried-IsSettled :
      (e : Failure)
      → gives_up config job.attempts (err e) ≡ false
      → IsSettled ended config job.attempts
          (err e)
          (retried (ended + retry_delay job.attempts) h.item)
  retried-IsSettled e g = record {
    released = refl;
    published = ground (arith, h.open_);
    failed = ground (arith, h.open_, g);
    later = λ _. refl;
  }

  abbrev give_up_or_retry : Try (Unit {0}) × MemoryRepository
  give_up_or_retry =
      if leb config.max_attempts job.attempts
      then fail_outbox job.id config.id r
      else retry_outbox ended job.id config.id (retry_delay job.attempts) r

  give_up_or_retry-Settles :
      (e : Failure)
      → gives_up config job.attempts (err e) ≡ leb config.max_attempts job.attempts
      → Settles ended config job.attempts (err e) job.id give_up_or_retry
  unfolding fail_outbox retry_outbox
  give_up_or_retry-Settles e g = elim (Bool-cases (leb config.max_attempts job.attempts)) [
    | inl last ↦ rw (last) (settle-Settles given_up (err e) (given_up-IsSettled e (g ∙ last)))
    | inr more ↦ rw (more) (
        settle-Settles (retried (ended + retry_delay job.attempts)) (err e)
          (retried-IsSettled e (g ∙ more)))
  ]

  pub settled-Settles :
      (answer : Try (Unit {0}))
      → Settles ended config job.attempts answer job.id (settled ended config job answer r)
  unfolding settled complete_outbox fail_outbox
  settled-Settles (ok done) = settle-Settles completed (ok tt) completed-IsSettled
  settled-Settles (err (permanent code)) =
      settle-Settles given_up (err (permanent code)) (given_up-IsSettled (permanent code) refl)
  settled-Settles (err idempotency_conflict) = give_up_or_retry-Settles idempotency_conflict refl
  settled-Settles (err webhook_conflict) = give_up_or_retry-Settles webhook_conflict refl
  settled-Settles (err account_exists) = give_up_or_retry-Settles account_exists refl
  settled-Settles (err (message text)) = give_up_or_retry-Settles (message text) refl
