-- ===== src/Engine/Memory/Outbox.antt =====
-- memory_repository.go: claiming, renewing and settling the messages of the outbox. `now` is the
-- clock, an argument of each call.
pub mod Claims
pub mod Steps
pub mod Leases
pub mod Settling
use parity_lab.Prelude.{
  ℕ, ◌+◌, String, Bool, true, false, List, [], ◌∷◌, Option, none, some, ◌==◌, string_eq,
  if◌then◌else◌, ◌&&◌, ◌||◌, not, ltb,
}
use parity_lab.Prelude.Table.{Table, lookup, insert, get_or}
use parity_lab.Failure.{Try, ok, err, message}
use parity_lab.Domain.{Time, Duration}
use parity_lab.Engine.Records.{OutboxMessage, malformed}
use parity_lab.Engine.Memory.{MemoryRepository, MemoryOutbox}

-- `OutboxMessage{}` and `memoryOutbox{}`
abbrev pub zero_message : OutboxMessage
zero_message = record {
  id = "";
  topic = "";
  aggregate_id = "";
  payload = malformed;
  attempts = 0;
  locked_by = "";
  locked_at = 0;
}

abbrev pub zero_outbox : MemoryOutbox
zero_outbox = record { message = zero_message; available_at = 0; published = false; failed = false }

unfoldable pub contains_topic : List String → String → Bool
contains_topic [] candidate = false
contains_topic (topic ∷ topics) candidate =
    if topic == candidate then true else contains_topic topics candidate

-- `sort.Strings`: by the bytes, here by insertion
abbrev text_le : String → String → Bool
text_le s t = elim (Prim.Native.String.compare s t) [
  | Prim.Native.Nat.Ordering.gt ↦ false
  | _ ↦ true
]

unfoldable pub insert_sorted : String → List String → List String
insert_sorted s [] = s ∷ []
insert_sorted s (t ∷ ts) = if text_le s t then s ∷ t ∷ ts else t ∷ insert_sorted s ts

unfoldable pub sorted_ids : Table String MemoryOutbox → List String
unfolding insert_sorted
sorted_ids [] = []
sorted_ids ((id, item) ∷ outbox) = insert_sorted id (sorted_ids outbox)

-- whether the lease of a locked message has run out
abbrev pub expired : Duration → Time → MemoryOutbox → Bool
expired lease now item =
    not (item.message.locked_by == "") && ltb (item.message.locked_at + lease) now

-- the two `continue` guards of the loop, negated
unfoldable pub claimable : List String → Duration → Time → MemoryOutbox → Bool
claimable topics lease now item =
    contains_topic topics item.message.topic
    && not (
        item.published
        || item.failed
        || ltb now item.available_at
        || (not (item.message.locked_by == "") && not (expired lease now item)))

abbrev pub locked_for : String → Time → MemoryOutbox → MemoryOutbox
locked_for owner now item = record item {
  message = record item.message {
    locked_by = owner;
    locked_at = now;
    attempts = item.message.attempts + 1;
  };
}

module _ (now : Time) (owner : String) (lease : Duration) (topics : List String) where
  unfoldable pub claim_from :
      List String → MemoryRepository → Option OutboxMessage × MemoryRepository
  claim_from [] r = (none, r)
  claim_from (id ∷ ids) r =
      let rest = claim_from ids r in
      let item = get_or id zero_outbox r.outbox in
      if claimable topics lease now item
      then (
        some (locked_for owner now item).message,
        record r { outbox = insert id (locked_for owner now item) r.outbox },
      )
      else rest

  unfoldable pub claim_outbox : MemoryRepository → Option OutboxMessage × MemoryRepository
  unfolding sorted_ids claim_from
  claim_outbox r = claim_from (sorted_ids r.outbox) r

-- whether `owner` may renew the lease
abbrev pub renewable : String → MemoryOutbox → Bool
renewable owner item = not (item.published || item.failed) && item.message.locked_by == owner

unfoldable pub heartbeat_outbox :
    Time → String → String → MemoryRepository → Bool × MemoryRepository
heartbeat_outbox now id owner r = elim (lookup id r.outbox) [
  | none ↦ (false, r)
  | some item ↦
      if renewable owner item
      then (
        true,
        record r {
          outbox =
              insert id (record item { message = record item.message { locked_at = now } })
                r.outbox;
        },
      )
      else (false, r)
]

-- what completing, retrying and failing share: the holder of the lease rewrites its item
unfoldable pub settle :
    (MemoryOutbox → MemoryOutbox)
    → String
    → String
    → MemoryRepository
    → Try (Unit {0}) × MemoryRepository
settle change id owner r = elim (lookup id r.outbox) [
  | none ↦ (err (message "outbox lease lost"), r)
  | some item ↦
      if item.message.locked_by == owner
      then (ok tt, record r { outbox = insert id (change item) r.outbox })
      else (err (message "outbox lease lost"), r)
]

abbrev pub unlocked : OutboxMessage → OutboxMessage
unlocked m = record m { locked_by = "" }

abbrev pub completed : MemoryOutbox → MemoryOutbox
completed item = record item { published = true; message = unlocked item.message }

abbrev pub retried : Time → MemoryOutbox → MemoryOutbox
retried at item = record item {
  message = record item.message { locked_by = ""; locked_at = 0 };
  available_at = at;
}

abbrev pub given_up : MemoryOutbox → MemoryOutbox
given_up item = record item { failed = true; message = unlocked item.message }

unfoldable pub complete_outbox :
    String → String → MemoryRepository → Try (Unit {0}) × MemoryRepository
unfolding settle
complete_outbox = settle completed

unfoldable pub retry_outbox :
    Time → String → String → Duration → MemoryRepository → Try (Unit {0}) × MemoryRepository
unfolding settle
retry_outbox now id owner delay = settle (retried (now + delay)) id owner

unfoldable pub fail_outbox : String → String → MemoryRepository → Try (Unit {0}) × MemoryRepository
unfolding settle
fail_outbox = settle given_up
