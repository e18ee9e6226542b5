-- ===== src/Http/Stream/Growth.antt =====
-- A log that only grows while it is watched, and the events behind a cursor of it.
use parity_lab.Prelude.{
  ℕ, ◌+◌, ◌≤◌, String, true, List, [], ◌∷◌, ◌++◌, length, take, keep, ◌≡◌, refl, sym, ap, subst,
  ◌∙◌, arith, length-append, string_eq, inl, inr, Bool-cases,
}
use parity_lab.Prelude.Table.{get_or, has}
use parity_lab.Domain.{Event, zero_run}
use parity_lab.Engine.Memory.{MemoryRepository}
use parity_lab.Engine.Memory.Stream.Pages.{IsAscending, is_after}
use parity_lab.Http.Stream.{event_reader, member, Tick, polls, beats}
use parity_lab.Http.Stream.Events.{
  drop, last_sequence, last_sequence_le, keep-last_sequence, keep-keep, keep-IsAscending,
}
use parity_lab.Http.Stream.Writing.{room_for}

-- ticks of a stream of a project's run, at which its log only grows: heartbeats, and polls of the storage
pub data Grows (project_id id : String) : List Event → List Tick → List Event → Type 0 where
  rests : {log : List Event} → Grows project_id id log [] log
  beaten :
      {log last : List Event} {ticks : List Tick}
      → Grows project_id id log ticks last
      → Grows project_id id log (beats ∷ ticks) last
  polled :
      {log last : List Event} {ticks : List Tick} (r : MemoryRepository) (more : List Event)
      → has id r.runs ≡ true
      → get_or id "" r.project_by_run ≡ project_id
      → get_or (get_or id zero_run r.runs).id [] r.events ≡ log ++ more
      → IsAscending 0 (log ++ more)
      → Grows project_id id (log ++ more) ticks last
      → Grows project_id id log (polls (event_reader (member project_id) id r) ∷ ticks) last

pub keep-append :
    (n : ℕ) (a b : List Event)
    → keep (is_after n) (a ++ b) ≡ keep (is_after n) a ++ keep (is_after n) b
keep-append n [] b = refl
keep-append n (event ∷ a) b = elim (Bool-cases (is_after n event)) [
  | inl new ↦ rw (new, keep) (ap (λ l. event ∷ l) (keep-append n a b))
  | inr old ↦ rw (old, keep) (keep-append n a b)
]

pub length-keep : (n : ℕ) (a : List Event) → length (keep (is_after n) a) ≤ length a
length-keep n [] = omega arith
length-keep n (event ∷ a) = elim (Bool-cases (is_after n event)) [
  | inl new ↦ rw (new, keep) (omega (arith, length-keep n a))
  | inr old ↦ rw (old, keep) (omega (arith, length-keep n a))
]

take_all : (a b : List Event) → take (length a) (a ++ b) ≡ a
take_all [] b = refl
take_all (event ∷ a) b = ap (λ l. event ∷ l) (take_all a b)

drop_all : (a b : List Event) → drop (length a) (a ++ b) ≡ b
drop_all [] b = refl
drop_all (event ∷ a) b = drop_all a b

pub length-Grows :
    {project_id id : String} {log last : List Event} {ticks : List Tick}
    → Grows project_id id log ticks last
    → length log ≤ length last
length-Grows rests = omega arith
length-Grows (beaten g) = length-Grows g
length-Grows {log = log} (polled r more stored owned is ascending g) =
    omega (arith, length-Grows g, length-append log more)

pub room_for-length : (events : List Event) (k : ℕ) → room_for events k ≡ length events + k
room_for-length [] k = omega arith
room_for-length (event ∷ events) k = omega (arith, room_for-length events k)

-- the events behind a cursor
abbrev pub behind : ℕ → List Event → List Event
behind start log = keep (is_after start) log

-- the events that a grown log has behind the cursor of the log before
pub behind-append :
    (start : ℕ) (log more : List Event)
    → IsAscending 0 (log ++ more)
    → behind (last_sequence start (behind start log)) (log ++ more) ≡ behind start more
behind-append start log more ascending =
    let old = behind start log in
    let new = behind start more in
    let split = keep-append start log more in
    let rest : IsAscending start (old ++ new) =
      subst (IsAscending start) split (keep-IsAscending start 0 (log ++ more) ascending) in
    let cursor = ap (last_sequence start) (take_all old new) in
    sym (
      keep-keep start (last_sequence start old) (log ++ more)
        (subst (λ n. start ≤ n) cursor (last_sequence_le (length old) start (old ++ new) rest)))
    ∙ ap (keep (is_after (last_sequence start old))) split
    ∙ ap (λ n. keep (is_after n) (old ++ new)) (sym cursor)
    ∙ keep-last_sequence (length old) start (old ++ new) rest
    ∙ drop_all old new
