-- ===== src/Tests/Outbox.antt =====
-- The outbox: a message that "a" claims, and what "b" can do about it.
use parity_lab.Prelude.{
  eq_iff, String, false, List, [], ◌∷◌, some, string_eq, ◌≡◌, refl, arith, ◌*◌, ◌≢◌,
}
use parity_lab.Prelude.Table.{lookup, insert}
use parity_lab.Prelude.Text.{padded}
use parity_lab.Domain.{second}
use parity_lab.Engine.Memory.{
  MemoryRepository, MemoryOutbox, new_memory_repository, put_outbox, fresh_item,
}
use parity_lab.Engine.Memory.Outbox.{
  claim_outbox, complete_outbox, locked_for, completed, claimable, contains_topic,
}
use parity_lab.Engine.Memory.Outbox.Claims.{Claims}
use parity_lab.Engine.Memory.Outbox.Steps.{Moment, Reach, here, next, wait, claim, complete}
use parity_lab.Engine.Memory.Outbox.Settling.{
  IsOrderly, IsNamed, Step-IsOrderly, Reach-IsOrderly, Reach-settled,
}
use parity_lab.Engine.Memory.Outbox.Leases.{IsOther, Reach-held}
use parity_lab.Tests.Data.{
  thirty_seconds, one_message, one_message-IsOrderly, is_named, test_payload,
}

abbrev topics : List String
topics = "run.persisted" ∷ []

abbrev claimed_by_a : MemoryRepository
claimed_by_a = (claim_outbox 0 "a" thirty_seconds topics one_message).1

abbrev item_of_a : MemoryOutbox
item_of_a =
    locked_for "a" 0 (fresh_item 0 "outbox_000001" "run.persisted" "run_000004" test_payload)

claimed_item : lookup "outbox_000001" claimed_by_a.outbox ≡ some item_of_a
unfolding claim_outbox put_outbox new_memory_repository lookup insert claimable contains_topic
    padded
claimed_item = refl

claimed_by_a-IsOrderly : IsOrderly claimed_by_a
claimed_by_a-IsOrderly =
    Step-IsOrderly thirty_seconds IsNamed (λ owner named. named)
      {m = record { now = 0; repo = one_message }} one_message-IsOrderly
      (claim "a" topics (is_named "a" (omega arith)))

a_not_b : ◌≢◌ {A = String} "b" "a"
a_not_b = ground (arith, eq_iff "b" "a")

abbrev a_has_claimed : Moment
a_has_claimed = record { now = 0; repo = claimed_by_a }

-- "b" tries to claim after a second
abbrev b_has_tried : Moment
b_has_tried = record {
  now = second;
  repo = (claim_outbox second "b" thirty_seconds topics claimed_by_a).1;
}

b_tries : Reach thirty_seconds (IsOther "a") a_has_claimed b_has_tried
b_tries =
    next (next here (wait second (omega arith)))
      (claim "b" topics (is_named "b" (omega arith), a_not_b))

Reach-held_example :
    (lookup "outbox_000001" b_has_tried.repo.outbox ≡ some item_of_a)
    × ((topics : List String) → claimable topics thirty_seconds second item_of_a ≡ false)
Reach-held_example =
    Reach-held thirty_seconds "a" (is_named "a" (omega arith)) "outbox_000001" item_of_a
      claimed_by_a-IsOrderly claimed_item refl b_tries (omega arith)

-- "a" completes the message
abbrev a_has_completed : Moment
a_has_completed = record { now = 0; repo = (complete_outbox "outbox_000001" "a" claimed_by_a).1 }

a_completes : Reach thirty_seconds IsNamed a_has_claimed a_has_completed
a_completes = next here (complete "outbox_000001" "a" (is_named "a" (omega arith)))

Reach-IsOrderly_example : IsOrderly a_has_completed.repo
Reach-IsOrderly_example =
    Reach-IsOrderly thirty_seconds IsNamed (λ owner named. named) claimed_by_a-IsOrderly a_completes

completed_item : lookup "outbox_000001" a_has_completed.repo.outbox ≡ some (completed item_of_a)
unfolding claim_outbox put_outbox new_memory_repository lookup insert claimable contains_topic
    padded complete_outbox
completed_item = refl

-- "b" tries to claim the completed message after a minute
abbrev b_comes_late : Moment
b_comes_late = record {
  now = 60 * second;
  repo = (claim_outbox (60 * second) "b" thirty_seconds topics a_has_completed.repo).1;
}

b_is_late : Reach thirty_seconds IsNamed a_has_completed b_comes_late
b_is_late =
    next (next here (wait (60 * second) (omega arith)))
      (claim "b" topics (is_named "b" (omega arith)))

Reach-settled_example : lookup "outbox_000001" b_comes_late.repo.outbox ≡ some (completed item_of_a)
Reach-settled_example =
    Reach-settled thirty_seconds IsNamed (λ owner named. named) "outbox_000001"
      (completed item_of_a)
      (Reach-IsOrderly thirty_seconds IsNamed (λ owner named. named) claimed_by_a-IsOrderly
        a_completes)
      completed_item refl b_is_late
