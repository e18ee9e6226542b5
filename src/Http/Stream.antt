-- ===== src/Http/Stream.antt =====
-- httpapi/handler.go: the event stream of a run. The connection takes a number of frames and then fails:
-- a deadline, a write and a flush fail alike, and an event can always be encoded. The reader is the
-- page of events after a cursor, of the project or of the public. The loops that read until a page
-- is not full take fuel; the poller's ticks are a list.
pub mod Cursor
pub mod Events
pub mod Writing
pub mod Replay
pub mod Frames
pub mod Polling
pub mod Growth
pub mod Delivery
pub mod Following
use Prim.Native.Char.{code}
use parity_lab.Prelude.{
  ℕ, zero, suc, ◌+◌, ◌/◌, ◌-◌, String, Bool, true, false, List, [], ◌∷◌, ◌++◌, Option, none, some,
  ltb, leb, num_eq, length, ◌==◌, string_eq, if◌then◌else◌, ◌&&◌, ◌||◌, not,
}
use parity_lab.Prelude.Text.{◌<>◌}
use parity_lab.Prelude.Text.Split.{every, is_digit}
use parity_lab.Prelude.Text.Numerals.{ℤ, pos, negsuc, parse_int}
use parity_lab.Failure.{Try, ok, err}
use parity_lab.Domain.{
  Run, RunStatus, no_status, running, passed, failed, Event, Duration, millisecond,
}
use parity_lab.Domain.Errors.{ApiError, invalid, not_found, internal}
use parity_lab.Engine.Records.{EventStreamBatch}
use parity_lab.Engine.Memory.{MemoryRepository}
use parity_lab.Engine.Service.Reads.{
  service_events_after, service_public_events_after, service_events_after_for_project,
}
use parity_lab.Engine.Service.{Answer, success, failure}

abbrev pub invalid_last_event_id : ApiError
invalid_last_event_id =
    invalid "invalid_last_event_id" "Last-Event-ID must contain one decimal event sequence."
      "Last-Event-ID"

-- a numeral with a leading zero that is not the zero
abbrev pub has_leading_zero : String → Bool
has_leading_zero String.[] = false
has_leading_zero (String.◌∷◌ c String.[]) = false
has_leading_zero (String.◌∷◌ c (String.◌∷◌ d s)) = num_eq (code c) b'0'

abbrev pub natural : Option ℤ → Answer ℕ
natural none = failure invalid_last_event_id
natural (some (pos n)) = success n
natural (some (negsuc n)) = failure invalid_last_event_id

unfoldable pub parse_last_event_id : List String → Answer ℕ
parse_last_event_id [] = success 0
parse_last_event_id (value ∷ []) =
    if value == "" || has_leading_zero value
    then failure invalid_last_event_id
    else if not (every is_digit value)
    then failure invalid_last_event_id
    else natural (parse_int 31 value)
parse_last_event_id (value ∷ other ∷ values) = failure invalid_last_event_id

pub data Frame : Type 0 where
  retry : ℕ → Frame
  run_event : Event → Frame
  run_complete : String → Frame
  heartbeat stream_error : Frame

-- the connection: the frames that it still takes, and those that it took
pub record Sink : Type 0 where
  pub room : ℕ
  pub sent : List Frame

abbrev pub write : Frame → Sink → Option Sink
write frame sink = elim sink.room [
  | zero ↦ none
  | suc n ↦ some (record { room = n; sent = sink.sent ++ (frame ∷ []) })
]

-- the last sequence after a batch, or a write that failed
pub data Written : Type 0 where
  wrote : ℕ → Sink → Written
  broken : Sink → Written

unfoldable pub write_event_batch : List Event → ℕ → Sink → Written
write_event_batch [] last sink = wrote last sink
write_event_batch (event ∷ events) last sink = elim (leb event.sequence last) [
  | true ↦ write_event_batch events last sink
  | false ↦ elim (write (run_event event) sink) [
    | none ↦ broken sink
    | some next ↦ write_event_batch events event.sequence next
  ]
]

unfoldable pub is_terminal_run : Run → Bool
is_terminal_run run = elim run.status [
  | no_status ↦ false
  | running ↦ false
  | passed ↦ true
  | failed ↦ true
]

abbrev pub batch_size : ℕ
batch_size = 100

abbrev pub EventBatchReader : Type 0
EventBatchReader = ℕ → ℕ → Try (Option EventStreamBatch)

-- who asks: anyone where there are no accounts, a visitor with no session, or a project's session
pub data Viewer : Type 0 where
  anyone visitor : Viewer
  member : String → Viewer

abbrev pub found_batch : EventStreamBatch × Bool → Try (Option EventStreamBatch)
found_batch (batch, true) = ok (some batch)
found_batch (batch, false) = ok none

-- `eventReader`, for the caller that the session settled
unfoldable pub event_reader : Viewer → String → MemoryRepository → EventBatchReader
event_reader anyone id r after limit = found_batch (service_events_after id after limit r)
event_reader visitor id r after limit = found_batch (service_public_events_after id after limit r)
event_reader (member project_id) id r after limit =
    found_batch (service_events_after_for_project project_id id after limit r)

-- `writeStreamError`, which ignores its own error
abbrev pub write_stream_error : Sink → Sink
write_stream_error sink = elim (write stream_error sink) [ none ↦ sink | some next ↦ next ]

-- how a stream goes on: with its cursor, whether `run.complete` was sent and the run of the last page;
-- ended by a write or by the reader; or out of fuel
pub data Progress : Type 0 where
  going : ℕ → Bool → Run → Sink → Progress
  ended : Sink → Progress
  out_of_fuel : Progress

-- the replay of the stored events, page by page until one is not full
unfoldable pub replay : ℕ → EventBatchReader → EventStreamBatch → ℕ → Sink → Progress
unfolding write_event_batch
replay zero reader batch last sink = out_of_fuel
replay (suc fuel) reader batch last sink = elim (write_event_batch batch.events last sink) [
  | broken s ↦ ended s
  | wrote next s ↦ elim (ltb (length batch.events) batch_size) [
    | true ↦ going next false batch.run s
    | false ↦ elim (reader next batch_size) [
      | err e ↦ ended (write_stream_error s)
      | ok o ↦ elim o [
        | none ↦ ended (write_stream_error s)
        | some more ↦ replay fuel reader more next s
      ]
    ]
  ]
]

-- `run.complete`, once the run is over
unfoldable pub complete : String → Progress → Progress
unfolding is_terminal_run
complete id (going last sent run sink) =
    if not sent && is_terminal_run run
    then (elim (write (run_complete id) sink) [
      | none ↦ ended sink
      | some next ↦ going last true run next
    ])
    else going last sent run sink
complete id (ended sink) = ended sink
complete id out_of_fuel = out_of_fuel

abbrev pub retry_milliseconds : Duration → ℕ
retry_milliseconds sse_retry = let n = sse_retry / millisecond in if ltb n 1 then 1 else n

-- `eventStream` up to its polling loop, for a connection that can be flushed
unfoldable pub open_stream :
    ℕ → Duration → String → EventBatchReader → List String → Sink → Answer Progress
unfolding parse_last_event_id replay complete
open_stream fuel sse_retry id reader last_event_ids sink =
    elim (parse_last_event_id last_event_ids) [
      | failure e ↦ failure e
      | success last ↦ elim (reader last batch_size) [
        | err e ↦
            failure (internal "event_stream_unavailable" "The event stream could not be opened.")
        | ok o ↦ elim o [
          | none ↦ failure (not_found "run" id)
          | some batch ↦
              if ltb batch.high_water last
              then failure (
                  invalid "last_event_id_ahead"
                    "Last-Event-ID is ahead of the latest event for this run." "Last-Event-ID")
              else (elim (write (retry (retry_milliseconds sse_retry)) sink) [
                | none ↦ success (ended sink)
                | some opened ↦ success (complete id (replay fuel reader batch last opened))
              ])
        ]
      ]
    ]

-- one poll: pages until one is not full, with `run.complete` after the first page that shows the end
unfoldable pub poll_pages :
    ℕ → String → EventBatchReader → EventStreamBatch → ℕ → Bool → Sink → Progress
unfolding write_event_batch complete
poll_pages zero id reader batch last sent sink = out_of_fuel
poll_pages (suc fuel) id reader batch last sent sink =
    elim (write_event_batch batch.events last sink) [
      | broken s ↦ ended s
      | wrote next s ↦ elim (complete id (going next sent batch.run s)) [
        | ended t ↦ ended t
        | out_of_fuel ↦ out_of_fuel
        | going cursor done run t ↦ elim (ltb (length batch.events) batch_size) [
          | true ↦ going cursor done run t
          | false ↦ elim (reader cursor batch_size) [
            | err e ↦ ended (write_stream_error t)
            | ok o ↦ elim o [
              | none ↦ ended (write_stream_error t)
              | some more ↦ poll_pages fuel id reader more cursor done t
            ]
          ]
        ]
      ]
    ]

pub data Tick : Type 0 where
  polls : EventBatchReader → Tick
  beats : Tick

-- one case of the polling loop, which stops by itself when the request is done
unfoldable pub on_tick : ℕ → String → Tick → Progress → Progress
unfolding poll_pages
on_tick fuel id (polls reader) (going last sent run sink) = elim (reader last batch_size) [
  | err e ↦ ended (write_stream_error sink)
  | ok o ↦ elim o [
    | none ↦ ended (write_stream_error sink)
    | some batch ↦ poll_pages fuel id reader batch last sent sink
  ]
]
on_tick fuel id beats (going last sent run sink) = elim (write heartbeat sink) [
  | none ↦ ended sink
  | some next ↦ going last sent run next
]
on_tick fuel id tick (ended sink) = ended sink
on_tick fuel id tick out_of_fuel = out_of_fuel

-- the polling loop, for as many ticks as there are before the request is done
unfoldable pub watch : ℕ → String → List Tick → Progress → Progress
unfolding on_tick
watch fuel id [] state = state
watch fuel id (tick ∷ ticks) state = watch fuel id ticks (on_tick fuel id tick state)

abbrev pub followed : (Progress → Progress) → Answer Progress → Answer Progress
followed f (success state) = success (f state)
followed f (failure e) = failure e

-- `eventStream`, whose reader is the same to the end; a tick that polls reads the storage of its time
unfoldable pub event_stream :
    ℕ → Duration → String → EventBatchReader → List String → List Tick → Sink → Answer Progress
unfolding open_stream watch
event_stream fuel sse_retry id reader last_event_ids ticks sink =
    followed (watch fuel id ticks) (open_stream fuel sse_retry id reader last_event_ids sink)
