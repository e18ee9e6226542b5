-- ===== src/Engine/Memory/Stream.antt =====
-- memory_repository.go: `eventsAfterLocked`, the page of events after a cursor, and its three callers.
-- `after` and `limit` are the caller's; a negative one acts as 0 does.
pub mod Pages
use parity_lab.Prelude.{
  ℕ, String, Bool, true, false, List, [], ◌∷◌, ◌++◌, ◌==◌, string_eq, if◌then◌else◌, ◌&&◌, ◌||◌,
  not, ltb, leb, length, num_eq,
}
use parity_lab.Prelude.Table.{lookup, get_or, has}
use parity_lab.Domain.{Run, Event, zero_run}
use parity_lab.Engine.Records.{EventStreamBatch, zero_batch}
use parity_lab.Engine.Memory.{MemoryRepository}

-- the page size that is used for a requested one
unfoldable pub page_limit : ℕ → ℕ
page_limit limit = if num_eq limit 0 || ltb 500 limit then 100 else limit

-- the loop: the page so far, and the highest sequence so far
unfoldable pub scan : ℕ → ℕ → List Event → List Event → ℕ → List Event × ℕ
scan after limit [] picked high = (picked, high)
scan after limit (event ∷ all) picked high =
    scan after limit all
      (if leb event.sequence after || leb limit (length picked)
        then picked
        else picked ++ event ∷ [])
      (if ltb high event.sequence then event.sequence else high)

-- `sort.Slice` by sequence; events of one sequence keep their order
unfoldable pub insert_by_sequence : Event → List Event → List Event
insert_by_sequence event [] = event ∷ []
insert_by_sequence event (other ∷ events) =
    if ltb other.sequence event.sequence
    then other ∷ insert_by_sequence event events
    else event ∷ other ∷ events

unfoldable pub sort_by_sequence : List Event → List Event
unfolding insert_by_sequence
sort_by_sequence [] = []
sort_by_sequence (event ∷ events) = insert_by_sequence event (sort_by_sequence events)

unfoldable pub events_after_locked : Run → ℕ → ℕ → MemoryRepository → EventStreamBatch
unfolding page_limit scan sort_by_sequence
events_after_locked run after limit r =
    let (picked, high) = scan after (page_limit limit) (get_or run.id [] r.events) [] 0 in
    record { run = run; events = sort_by_sequence picked; high_water = high }

unfoldable pub events_after : String → ℕ → ℕ → MemoryRepository → EventStreamBatch × Bool
unfolding events_after_locked
events_after id after limit r =
    if has id r.runs
    then (events_after_locked (get_or id zero_run r.runs) after limit r, true)
    else (zero_batch, false)

unfoldable pub events_after_for_project :
    String → String → ℕ → ℕ → MemoryRepository → EventStreamBatch × Bool
unfolding events_after_locked
events_after_for_project project_id id after limit r =
    if not (has id r.runs) || not (get_or id "" r.project_by_run == project_id)
    then (zero_batch, false)
    else (events_after_locked (get_or id zero_run r.runs) after limit r, true)

unfoldable pub public_events_after : String → ℕ → ℕ → MemoryRepository → EventStreamBatch × Bool
unfolding events_after_locked
public_events_after id after limit r =
    if not (has id r.runs) || has id r.project_by_run
    then (zero_batch, false)
    else (events_after_locked (get_or id zero_run r.runs) after limit r, true)
