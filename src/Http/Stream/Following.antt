-- ===== src/Http/Stream/Following.antt =====
-- A stream from its request to the end of its ticks.
use parity_lab.Prelude.{
  ℕ, suc, ◌+◌, ◌-◌, ◌<◌, ◌≤◌, ◌^◌, String, true, List, [], ◌∷◌, length, map, ◌≡◌, refl, ap, ◌∙◌,
  arith, inl, inr, Bool-cases, append-nil, string_eq,
}
use parity_lab.Prelude.Text.{decimal}
use parity_lab.Prelude.Table.{get_or, has}
use parity_lab.Domain.{Run, Event, Duration, zero_run}
use parity_lab.Engine.Memory.{MemoryRepository}
use parity_lab.Engine.Memory.Stream.Pages.{IsAscending, highest}
use parity_lab.Engine.Service.{Answer, success}
use parity_lab.Http.Stream.{
  run_event, run_complete, is_terminal_run, event_reader, member, Progress, going, Tick, watch,
  followed, event_stream,
}
use parity_lab.Http.Stream.Frames.{
  delivered, completions, delivered-append, completions-append, delivered-events,
  completions-events, one,
}
use parity_lab.Http.Stream.Events.{last_sequence}
use parity_lab.Http.Stream.Writing.{room_for, connection}
use parity_lab.Http.Stream.Replay.{replay_frames, room_after, open_stream-replay}
use parity_lab.Http.Stream.Growth.{Grows, behind, length-Grows, length-keep, room_for-length}
use parity_lab.Http.Stream.Delivery.{IsDelivered, watch-IsDelivered}

-- the frames of a replay have its events, and its completion if the run is over
replay_frames-delivered :
    (sse_retry : Duration) (id : String) (run : Run) (events : List Event)
    → (delivered (replay_frames sse_retry id run events) ≡ events)
      × (completions (replay_frames sse_retry id run events) ≡ one (is_terminal_run run))
replay_frames-delivered sse_retry id run events = elim (Bool-cases (is_terminal_run run)) [
  | inl over ↦ rw over (
    delivered-append (map run_event events) (run_complete id ∷ [])
        ∙ append-nil (delivered (map run_event events))
        ∙ delivered-events events,
    omega (
      arith,
      completions-append (map run_event events) (run_complete id ∷ []),
      completions-events events,
    ),
  )
  | inr open_ ↦ rw open_ (
    ap delivered (append-nil (map run_event events)) ∙ delivered-events events,
    ap completions (append-nil (map run_event events)) ∙ completions-events events,
  )
]

room_after-le : (run : Run) (k : ℕ) → k ≤ room_after run k
room_after-le run k = ground arith

-- what an answered stream comes to
pub record IsFollowed (start : ℕ) (last : List Event) (answer : Answer Progress) : Type 0 where
  pub state : Progress
  pub answered : answer ≡ success state
  pub sent : IsDelivered start last state

-- A stream that the owner of a stored run opens with the id of an event that is not ahead, and follows for
-- any ticks while the log of the run grows, goes on and has sent every event behind that id, those
-- stored before and those added since, once and in order, and `run.complete` once at most. The
-- conditions are that the logs are ascending and only grow, that the id is below 2 to the 31, that
-- the connection takes two frames and one for each event and each tick, and fuel for more pages than
-- there are events.
pub event_stream-IsFollowed :
    (project_id id : String) (r : MemoryRepository) (fuel start room : ℕ) (sse_retry : Duration)
    (last : List Event) (ticks : List Tick)
    → let log = get_or (get_or id zero_run r.runs).id [] r.events in
      has id r.runs ≡ true
      → get_or id "" r.project_by_run ≡ project_id
      → IsAscending 0 log
      → start ≤ highest 0 log
      → start < 2 ^ 31
      → Grows project_id id log ticks last
      → length last < fuel
      → length last + length ticks + 2 ≤ room
      → IsFollowed start last (
          event_stream fuel sse_retry id
            (event_reader (member project_id) id r)
            (decimal start ∷ [])
            ticks
            (connection room []))
unfolding event_stream
event_stream-IsFollowed project_id id r fuel start room sse_retry last ticks stored owned ascending
      below small g enough wide =
    let run = get_or id zero_run r.runs in
    let log = get_or run.id [] r.events in
    let rest = behind start log in
    let k = room - (2 + length rest) in
    let fewer = length-keep start log in
    let longer = length-Grows g in
    let fits : room ≡ suc (room_for rest (suc k)) =
      omega (arith, room_for-length rest (suc k), wide, fewer, longer) in
    let frames = replay_frames-delivered sse_retry id run rest in
    let begun : Progress =
      going (last_sequence start rest) (is_terminal_run run) run
        (connection (room_after run k) (replay_frames sse_retry id run rest)) in
    let opened =
      open_stream-replay project_id id r fuel start k sse_retry stored owned ascending below small
        (omega (arith, enough, fewer, longer)) in
    record {
      state = watch fuel id ticks begun;
      answered =
          ap
            (λ m.
              event_stream fuel sse_retry id (event_reader (member project_id) id r)
                (decimal start ∷ []) ticks (connection m []))
            fits
          ∙ ap (followed (watch fuel id ticks)) opened;
      sent =
          watch-IsDelivered fuel start project_id id log last ticks begun
            (record {
              done = is_terminal_run run;
              run = run;
              room = room_after run k;
              sent = replay_frames sse_retry id run rest;
              state = refl;
              news = frames.0;
              marks = frames.1;
            })
            g enough (omega (arith, room_after-le run k, wide, fewer, longer));
    }
