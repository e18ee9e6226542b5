-- ===== src/Http/Reads.antt =====
-- httpapi: the session of a request, and the reads of a run, which its session settles.
pub mod Privacy
use parity_lab.Prelude.{
  ℕ, ◌||◌, map, String, Bool, true, false, List, Option, none, some, ◌==◌, string_eq, if◌then◌else◌,
}
use parity_lab.Domain.{Time, Duration, Run, Event, Report}
use parity_lab.Domain.Errors.{not_found, unauthorized}
use parity_lab.Engine.Memory.{MemoryRepository}
use parity_lab.Engine.Service.{Answer, success, failure}
use parity_lab.Engine.Service.Reads.{
  service_run, service_run_for_project, service_public_run, service_runs, service_runs_for_project,
  service_public_runs, service_events, service_events_for_project, service_public_events,
  service_report, service_report_for_project, service_public_report,
}
use parity_lab.Auth.{SessionView}
use parity_lab.Auth.Service.{AuthLibrary, Service}
use parity_lab.Auth.Service.Accounts.{session_required, session_invalid, session}
use parity_lab.Http.Requests.{Request, Response, json, write_error, respond}
use parity_lab.Http.Stream.{
  Viewer, anyone, visitor, member, Progress, Sink, Tick, polls, beats, event_reader, event_stream,
}
use parity_lab.Engine.Service.Ingress.{has_prefix}

-- what was found, or the answer that there is no such run
abbrev pub found_run : {A : Type 0} → Request → A × Bool → Response A
found_run req (a, true) = json 200 a
found_run req (a, false) = write_error req (not_found "run" req.path_value)

abbrev pub signed_in : Answer SessionView → Answer (Option SessionView)
signed_in (success identity) = success (some identity)
signed_in (failure e) = failure e

abbrev pub viewed : Answer (Option SessionView) → Answer Viewer
viewed (failure e) = failure e
viewed (success none) = success visitor
viewed (success (some identity)) = success (member identity.project.id)

module _ {S : Type 0} (lib : AuthLibrary) (now : Time) where
  -- `requireSession`, of a handler with accounts
  unfoldable pub require_session : Service S → Request → S → Answer SessionView
  require_session auth req s = elim req.cookie [
    | none ↦ failure session_required
    | some token ↦ if token == "" then failure session_required else session lib now auth token s
  ]

  unfoldable pub optional_session : Service S → Request → S → Answer (Option SessionView)
  optional_session auth req s = elim req.cookie [
    | none ↦ success none
    | some token ↦
        if token == "" then failure session_invalid else signed_in (session lib now auth token s)
  ]

  -- who asks
  unfoldable pub viewer_of : Option (Service S) → Request → S → Answer Viewer
  unfolding optional_session
  viewer_of none req s = success anyone
  viewer_of (some auth) req s = viewed (optional_session auth req s)

abbrev pub run_read : Viewer → String → MemoryRepository → Run × Bool
run_read anyone id r = service_run id r
run_read visitor id r = service_public_run id r
run_read (member project_id) id r = service_run_for_project project_id id r

abbrev pub events_read : Viewer → String → MemoryRepository → List Event × Bool
events_read anyone id r = service_events id r
events_read visitor id r = service_public_events id r
events_read (member project_id) id r = service_events_for_project project_id id r

abbrev pub report_read : Viewer → String → MemoryRepository → Report × Bool
report_read anyone id r = service_report id r
report_read visitor id r = service_public_report id r
report_read (member project_id) id r = service_report_for_project project_id id r

abbrev pub runs_read : Viewer → MemoryRepository → List Run
runs_read anyone r = service_runs r
runs_read visitor r = service_public_runs r
runs_read (member project_id) r = service_runs_for_project project_id r

-- `strings.Contains`
unfoldable pub includes : String → String → Bool
includes String.[] part = part == ""
includes (String.◌∷◌ c s) part = has_prefix (String.◌∷◌ c s) part || includes s part

-- a list of events, or a stream of them
pub data EventsReply : Type 0 where
  listed : Response (List Event) → EventsReply
  streamed : Response Progress → EventsReply

abbrev pub tick_of : Viewer → String → Option MemoryRepository → Tick
tick_of viewer id none = beats
tick_of viewer id (some r) = polls (event_reader viewer id r)

-- the stream of a run for a viewer
abbrev pub streamed_to :
    ℕ
    → Duration
    → List (Option MemoryRepository)
    → Sink
    → Request
    → Viewer
    → MemoryRepository
    → Response Progress
streamed_to fuel sse_retry moments sink req viewer r =
    let id = req.path_value in
    respond 200 req (
      event_stream fuel sse_retry id (event_reader viewer id r) req.last_event_ids
        (map (tick_of viewer id) moments) sink)

-- a read by the viewer, or the error of its session
abbrev pub for_viewer : {A : Type 0} → Request → Answer Viewer → (Viewer → Response A) → Response A
for_viewer req (failure e) read = write_error req e
for_viewer req (success viewer) read = read viewer

module _ {S : Type 0} (lib : AuthLibrary) (now : Time) (auth : Option (Service S)) where
  unfoldable pub run : Request → S → MemoryRepository → Response Run
  run req s r =
      for_viewer req (viewer_of lib now auth req s)
        (λ viewer. found_run req (run_read viewer req.path_value r))

  -- `eventStream`; its ticks are the storage of their time where they poll
  unfoldable pub stream_events :
      ℕ
      → Duration
      → List (Option MemoryRepository)
      → Sink
      → Request
      → S
      → MemoryRepository
      → Response Progress
  unfolding event_stream
  stream_events fuel sse_retry moments sink req s r =
      for_viewer req (viewer_of lib now auth req s)
        (λ viewer. streamed_to fuel sse_retry moments sink req viewer r)

  unfoldable pub list_events : Request → S → MemoryRepository → Response (List Event)
  list_events req s r =
      for_viewer req (viewer_of lib now auth req s)
        (λ viewer. found_run req (events_read viewer req.path_value r))

  unfoldable pub events :
      ℕ
      → Duration
      → List (Option MemoryRepository)
      → Sink
      → Request
      → S
      → MemoryRepository
      → EventsReply
  unfolding includes stream_events list_events
  events fuel sse_retry moments sink req s r =
      if includes req.accept "text/event-stream"
      then streamed (stream_events fuel sse_retry moments sink req s r)
      else listed (list_events req s r)

  unfoldable pub report : Request → S → MemoryRepository → Response Report
  report req s r =
      for_viewer req (viewer_of lib now auth req s)
        (λ viewer. found_run req (report_read viewer req.path_value r))

  unfoldable pub runs : Request → S → MemoryRepository → Response (List Run)
  runs req s r =
      for_viewer req (viewer_of lib now auth req s) (λ viewer. json 200 (runs_read viewer r))
