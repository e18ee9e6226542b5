-- ===== src/Http/Reads/Privacy.antt =====
-- A run of a project is shown to the project's sessions only.
use parity_lab.Prelude.{
  ℕ, List, Option, map, String, Bool, true, false, none, some, ◌==◌, string_eq, ◌≡◌, ◌≢◌, refl, sym,
  ap, arith, ◌⊎◌, inl, inr, subst, eq_iff, Option-cases, Bool-cases,
}
use parity_lab.Domain.{Time, Duration, Run}
use parity_lab.Engine.Memory.{MemoryRepository}
use parity_lab.Engine.Memory.Runs.{run_for_project}
use parity_lab.Engine.Memory.Runs.Tenancy.{granted, reads_exclude}
use parity_lab.Engine.Service.{Answer, success, failure}
use parity_lab.Engine.Service.Reads.{
  service_run_for_project, service_public_run, service_events_for_project, service_public_events,
  service_report_for_project, service_public_report, service_runs_for_project, service_public_runs,
  service_events_after_for_project, service_public_events_after,
}
use parity_lab.Auth.{SessionView}
use parity_lab.Auth.Service.{AuthLibrary, Service}
use parity_lab.Auth.Service.Accounts.{session}
use parity_lab.Http.Requests.{Request, Response, json, problem, empty, write_error, respond}
use parity_lab.Http.Stream.{
  Viewer, visitor, member, Sink, Tick, EventBatchReader, batch_size, event_reader, found_batch,
  event_stream, open_stream, parse_last_event_id,
}
use parity_lab.Engine.Memory.Runs.Listing.{without}
use parity_lab.Engine.Memory.Stream.{events_after_for_project, public_events_after}
use parity_lab.Engine.Records.{EventStreamBatch}
use parity_lab.Failure.{ok}
use parity_lab.Http.Reads.{
  viewed, signed_in, found_run, run_read, events_read, report_read, for_viewer, viewer_of,
  optional_session, run, events, report, runs, runs_read, includes, EventsReply, listed, streamed,
  tick_of, streamed_to, stream_events, list_events,
}

-- an answer that shows something
abbrev pub is_shown : {A : Type 0} → Response A → Bool
is_shown (json status a) = true
is_shown (problem status e) = false
is_shown (empty status) = false

abbrev pub shows : EventsReply → Bool
shows (listed response) = is_shown response
shows (streamed response) = is_shown response

hidden_read :
    {A : Type 0} (req : Request) (read : A × Bool)
    → granted read ≡ none
    → is_shown (found_run req read) ≡ false
unfolding write_error
hidden_read req (a, true) h = absurd (ground (arith, h))
hidden_read req (a, false) h = refl

hidden_batch : (read : EventStreamBatch × Bool) → granted read ≡ none → found_batch read ≡ ok none
hidden_batch (batch, true) h = absurd (ground (arith, h))
hidden_batch (batch, false) h = refl

-- a stream whose reader finds nothing is not opened
hidden_stream :
    (req : Request) (fuel : ℕ) (sse_retry : Duration) (id : String) (reader : EventBatchReader)
    (ids : List String) (ticks : List Tick) (sink : Sink)
    → ((n : ℕ) → reader n batch_size ≡ ok none)
    → is_shown (respond 200 req (event_stream fuel sse_retry id reader ids ticks sink)) ≡ false
unfolding event_stream open_stream respond write_error
hidden_stream req fuel sse_retry id reader ids ticks sink h = opened (parse_last_event_id ids) refl
  where
    opened :
        (start : Answer ℕ)
        → parse_last_event_id ids ≡ start
        → is_shown (respond 200 req (event_stream fuel sse_retry id reader ids ticks sink)) ≡ false
    opened (failure e) is = rw (is, event_stream, open_stream) refl
    opened (success n) is = rw (is, h n, event_stream, open_stream) refl

-- a viewer to whom an answer shows something
viewer_shown :
    {A : Type 0} (req : Request) (answer : Answer Viewer) (response : Viewer → Response A)
    → is_shown (for_viewer req answer response) ≡ true
    → (viewer : Viewer) × (answer ≡ success viewer) × (is_shown (response viewer) ≡ true)
unfolding write_error
viewer_shown req (failure e) response h = absurd (ground (arith, h))
viewer_shown req (success viewer) response h = (viewer, refl, h)

-- a viewer to whom two answers differ
viewer_differs :
    {A : Type 0} (req : Request) (answer : Answer Viewer) (one two : Viewer → Response A)
    → for_viewer req answer one ≢ for_viewer req answer two
    → (viewer : Viewer) × (answer ≡ success viewer) × (one viewer ≢ two viewer)
viewer_differs req (failure e) one two h = absurd (h refl)
viewer_differs req (success viewer) one two h = (viewer, refl, h)

-- the session of a member, with the project
abbrev pub IsMember : {S : Type 0} → AuthLibrary → Time → Service S → Request → S → String → Type 0
IsMember lib now auth req s project_id =
    (token : String) × (identity : SessionView) × (req.cookie ≡ some token)
    × (session lib now auth token s ≡ success identity)
    × (identity.project.id ≡ project_id)

module _ {S : Type 0} (lib : AuthLibrary) (now : Time) (auth : Service S) (req : Request)
    (s : S) where
  -- who a viewer is
  abbrev IsKnown : Viewer → Type 0
  IsKnown viewer =
      (viewer ≡ visitor)
      ⊎ ((project_id : String) × (viewer ≡ member project_id)
          × IsMember lib now auth req s project_id)

  session-IsKnown :
      (token : String) (answer : Answer SessionView) {viewer : Viewer}
      → req.cookie ≡ some token
      → session lib now auth token s ≡ answer
      → viewed (signed_in answer) ≡ success viewer
      → IsKnown viewer
  session-IsKnown token (failure e) carried given h = absurd (ground (arith, h))
  session-IsKnown token (success identity) carried given h =
      inr (identity.project.id, ground (arith, h), (token, identity, carried, given, refl))

  viewer_of-IsKnown :
      {viewer : Viewer} → viewer_of lib now (some auth) req s ≡ success viewer → IsKnown viewer
  unfolding viewer_of optional_session
  viewer_of-IsKnown h = elim (Option-cases req.cookie) [
    | inl bare ↦ inl (ground (arith, h, bare))
    | inr (token, carried) ↦ elim (Bool-cases (token == "")) [
      | inl blank ↦ absurd (ground (arith, h, carried, blank))
      | inr named ↦
          session-IsKnown token (session lib now auth token s) carried refl
            (ground (arith, h, carried, named))
    ]
  ]

  -- a viewer for whom something holds that does not hold for the public and for other projects
  owner_viewer :
      (Q : Viewer → Type 0) (project_id : String) (viewer : Viewer)
      → ¬ Q visitor
      → ((q : String) → project_id ≢ q → ¬ Q (member q))
      → IsKnown viewer
      → Q viewer
      → IsMember lib now auth req s project_id
  owner_viewer Q project_id viewer closed others (inl public) h = absurd (closed (subst Q public h))
  owner_viewer Q project_id viewer closed others (inr (q, owned, is)) h =
      elim (Bool-cases (project_id == q)) [
        | inl same ↦ subst (IsMember lib now auth req s) (sym ((eq_iff project_id q).0 same)) is
        | inr other ↦
            absurd (others q (λ e. ground (arith, other, e, eq_iff project_id q)) (subst Q owned h))
      ]

  shown_owner :
      {A : Type 0} (project_id : String) (response : Viewer → Response A)
      → is_shown (response visitor) ≡ false
      → ((q : String) → project_id ≢ q → is_shown (response (member q)) ≡ false)
      → is_shown (for_viewer req (viewer_of lib now (some auth) req s) response) ≡ true
      → IsMember lib now auth req s project_id
  shown_owner project_id response closed others h =
      let (viewer, is, seen) = viewer_shown req (viewer_of lib now (some auth) req s) response h in
      owner_viewer (λ v. is_shown (response v) ≡ true) project_id viewer
        (λ e. ground (arith, e, closed)) (λ q ne e. ground (arith, e, others q ne))
        (viewer_of-IsKnown is) seen

  module _ (project_id : String) (r : MemoryRepository) (named : project_id ≢ "")
      (owned : granted (run_for_project project_id req.path_value r) ≢ none) where
    list_events-IsMember :
        is_shown (list_events lib now (some auth) req s r) ≡ true
        → IsMember lib now auth req s project_id
    unfolding list_events service_events_for_project service_public_events
    list_events-IsMember h =
        let id = req.path_value in
        shown_owner project_id (λ v. found_run req (events_read v id r))
          (hidden_read req (events_read visitor id r)
            (reads_exclude project_id "" id 0 0 r named named owned).4)
          (λ q ne.
            hidden_read req (events_read (member q) id r)
              (reads_exclude project_id q id 0 0 r ne named owned).1)
          h

    stream_events-IsMember :
        (fuel : ℕ) (sse_retry : Duration) (moments : List (Option MemoryRepository)) (sink : Sink)
        → is_shown (stream_events lib now (some auth) fuel sse_retry moments sink req s r) ≡ true
        → IsMember lib now auth req s project_id
    unfolding stream_events event_reader service_events_after_for_project
        service_public_events_after
    stream_events-IsMember fuel sse_retry moments sink h =
        let id = req.path_value in
        let hidden : (v : Viewer)
            → ((n : ℕ) → event_reader v id r n batch_size ≡ ok none)
            → is_shown (streamed_to fuel sse_retry moments sink req v r) ≡ false =
          λ v.
            hidden_stream req fuel sse_retry id (event_reader v id r) req.last_event_ids
              (map (tick_of v id) moments) sink in
        shown_owner project_id (λ v. streamed_to fuel sse_retry moments sink req v r)
          (hidden visitor (λ n.
            hidden_batch (public_events_after id n batch_size r)
              (reads_exclude project_id "" id n batch_size r named named owned).7))
          (λ q ne. hidden (member q) (λ n.
            hidden_batch (events_after_for_project q id n batch_size r)
              (reads_exclude project_id q id n batch_size r ne named owned).6))
          h

    runs-IsMember :
        runs lib now (some auth) req s r ≢ runs lib now (some auth) req s (without req.path_value r)
        → IsMember lib now auth req s project_id
    unfolding runs service_runs_for_project service_public_runs
    runs-IsMember h =
        let id = req.path_value in
        let (viewer, is, differ) =
          viewer_differs req (viewer_of lib now (some auth) req s) (λ v. json 200 (runs_read v r))
            (λ v. json 200 (runs_read v (without id r))) h in
        owner_viewer
          (λ v.
            ◌≢◌ {A = Response (List Run)} (json 200 (runs_read v r))
              (json 200 (runs_read v (without id r))))
          project_id viewer
          (λ no. no (ap (json 200) (reads_exclude project_id "" id 0 0 r named named owned).9))
          (λ q ne no. no (ap (json 200) (reads_exclude project_id q id 0 0 r ne named owned).8))
          (viewer_of-IsKnown is) differ

    -- Where there are accounts and a named project reads a run: the run by its id, its events as a list or as
    -- a stream, whichever the request accepts, and its report are shown only to a request with a
    -- session of that project; and only such a request is given a list of runs that differs from the
    -- list of a storage without the run. The overview, which asks for no session, is not among these.
    pub is_shown-IsMember :
        (fuel : ℕ) (sse_retry : Duration) (moments : List (Option MemoryRepository)) (sink : Sink)
        → (is_shown (run lib now (some auth) req s r) ≡ true)
          ⊎ ((shows (events lib now (some auth) fuel sse_retry moments sink req s r) ≡ true)
              ⊎ ((is_shown (report lib now (some auth) req s r) ≡ true)
                  ⊎ (runs lib now (some auth) req s r
                      ≢ runs lib now (some auth) req s (without req.path_value r))))
        → IsMember lib now auth req s project_id
    unfolding run events report service_run_for_project service_public_run
        service_report_for_project service_public_report
    is_shown-IsMember fuel sse_retry moments sink (inl h) =
        let id = req.path_value in
        shown_owner project_id (λ v. found_run req (run_read v id r))
          (hidden_read req (run_read visitor id r)
            (reads_exclude project_id "" id 0 0 r named named owned).3)
          (λ q ne.
            hidden_read req (run_read (member q) id r)
              (reads_exclude project_id q id 0 0 r ne named owned).0)
          h
    is_shown-IsMember fuel sse_retry moments sink (inr (inl h)) =
        elim (Bool-cases (includes req.accept "text/event-stream")) [
          | inl stream ↦
              stream_events-IsMember fuel sse_retry moments sink (ground (arith, h, stream))
          | inr list ↦ list_events-IsMember (ground (arith, h, list))
        ]
    is_shown-IsMember fuel sse_retry moments sink (inr (inr (inl h))) =
        let id = req.path_value in
        shown_owner project_id (λ v. found_run req (report_read v id r))
          (hidden_read req (report_read visitor id r)
            (reads_exclude project_id "" id 0 0 r named named owned).5)
          (λ q ne.
            hidden_read req (report_read (member q) id r)
              (reads_exclude project_id q id 0 0 r ne named owned).2)
          h
    is_shown-IsMember fuel sse_retry moments sink (inr (inr (inr h))) = runs-IsMember h
