-- ===== src/Http/Stream/Replay.antt =====
-- The replay of a stream over a storage that does not change.
use parity_lab.Prelude.{
  ℕ, zero, suc, ◌<◌, ◌≤◌, ◌^◌, String, true, false, List, [], ◌∷◌, ◌++◌, some, ltb, length, take,
  keep, map, ◌≡◌, refl, sym, ap, ◌∙◌, arith, inl, inr, Bool-cases, if◌then◌else◌, append_assoc,
  append-nil, string_eq, eq_iff,
}
use parity_lab.Prelude.Text.{decimal}
use parity_lab.Prelude.Table.{get_or, has}
use parity_lab.Failure.{ok}
use parity_lab.Domain.{Run, Event, Duration, zero_run}
use parity_lab.Engine.Records.{EventStreamBatch}
use parity_lab.Engine.Memory.{MemoryRepository}
use parity_lab.Engine.Memory.Stream.{events_after_locked, events_after_for_project, page_limit}
use parity_lab.Engine.Memory.Stream.Pages.{
  IsAscending, is_after, highest, events_after_locked_lem, take-IsAscending,
}
use parity_lab.Engine.Service.Reads.{service_events_after_for_project}
use parity_lab.Engine.Service.{success}
use parity_lab.Http.Stream.{
  Frame, retry, run_event, run_complete, wrote, write_event_batch, is_terminal_run, batch_size,
  EventBatchReader, Progress, going, replay, complete, retry_milliseconds, open_stream, member,
  event_reader, found_batch,
}
use parity_lab.Http.Stream.Cursor.{parse_last_event_id-decimal}
use parity_lab.Http.Stream.Events.{
  drop, last_sequence, last_sequence_le, keep-last_sequence, keep-keep, keep-IsAscending, take-drop,
  drop_short, length-drop, last_sequence-append,
}
use parity_lab.Http.Stream.Writing.{
  room_for, connection, write_event_batch_lem, room_for-append, map-append, lt_of_ltb, le_of_ltb,
  not_ahead,
}

-- the frames of a whole replay
abbrev pub replay_frames : Duration → String → Run → List Event → List Frame
replay_frames sse_retry id run events =
    retry (retry_milliseconds sse_retry)
    ∷ (map run_event events ++ (if is_terminal_run run then run_complete id ∷ [] else []))

-- the room after a whole replay: one frame less if the run is over
abbrev pub room_after : Run → ℕ → ℕ
room_after run k = if is_terminal_run run then k else suc k

abbrev pub page_of : Run → List Event → ℕ → ℕ → EventStreamBatch
page_of run all high n = record {
  run = run;
  events = take batch_size (keep (is_after n) all);
  high_water = high;
}

module _ (run : Run) (all : List Event) (high : ℕ) (pages : EventBatchReader)
    (ascending : IsAscending 0 all)
    (serves : (n : ℕ) → pages n batch_size ≡ ok (some (page_of run all high n))) where
  abbrev pub after : ℕ → List Event
  after n = keep (is_after n) all

  abbrev pub page : ℕ → EventStreamBatch
  page n = page_of run all high n

  -- the cursor after a page
  abbrev pub turned : ℕ → ℕ
  turned n = last_sequence n (take batch_size (after n))

  pub after-turned : (n : ℕ) → after (turned n) ≡ drop batch_size (after n)
  after-turned n =
      let rest = keep-IsAscending n 0 all ascending in
      sym (keep-keep n (turned n) all (last_sequence_le batch_size n (after n) rest))
      ∙ keep-last_sequence batch_size n (after n) rest

  -- what a replay comes to after the events `rest`
  abbrev pub replayed : ℕ → ℕ → List Frame → List Event → Progress
  replayed n k sent rest =
      going (last_sequence n rest) false run (connection k (sent ++ map run_event rest))

  pub replayed-append :
      (n k : ℕ) (sent : List Frame) (a b : List Event)
      → replayed (last_sequence n a) k (sent ++ map run_event a) b ≡ replayed n k sent (a ++ b)
  replayed-append n k sent a b =
      rw (last_sequence-append n a b, map-append a b)
        (ap (λ l. going (last_sequence (last_sequence n a) b) false run (connection k l))
          (append_assoc sent (map run_event a) (map run_event b)))

  pub page-written :
      (n k : ℕ) (sent : List Frame)
      → write_event_batch (take batch_size (after n)) n (connection (room_for (after n) k) sent)
        ≡ wrote (turned n) (
            connection
              (room_for (drop batch_size (after n)) k)
              (sent ++ map run_event (take batch_size (after n))))
  page-written n k sent =
      let a = take batch_size (after n) in
      let b = drop batch_size (after n) in
      ap (λ m. write_event_batch a n (connection m sent))
        (ap (λ l. room_for l k) (sym (take-drop batch_size (after n))) ∙ room_for-append a b k)
      ∙ write_event_batch_lem a n (room_for b k) sent
          (take-IsAscending batch_size n (after n) (keep-IsAscending n 0 all ascending))

  -- With fuel for the pages and room for the events, the replay writes every event after the cursor.
  pub replay_lem :
      (fuel n k : ℕ) (sent : List Frame)
      → length (after n) < fuel
      → replay fuel pages (page n) n (connection (room_for (after n) k) sent)
        ≡ replayed n k sent (after n)
  unfolding replay
  replay_lem zero n k sent h = absurd (omega (arith, h))
  replay_lem (suc fuel) n k sent h =
      let a = take batch_size (after n) in
      let b = drop batch_size (after n) in
      let whole = ap (replayed n k sent) (take-drop batch_size (after n)) in
      elim (Bool-cases (ltb (length a) batch_size)) [
        | inl short ↦
            let none_left =
              drop_short batch_size (after n) (lt_of_ltb (length a) batch_size short) in
            rw (page-written n k sent, replay, short)
              (ap
                  (λ l.
                    going (turned n) false run
                      (connection (room_for l k) (sent ++ map run_event a)))
                  none_left
                ∙ ap (replayed n k sent) (sym (append-nil a) ∙ ap (λ l. a ++ l) (sym none_left))
                ∙ whole)
        | inr full ↦
            rw (page-written n k sent, replay, full, serves (turned n))
              (ap
                  (λ l.
                    replay fuel pages (page (turned n)) (turned n)
                      (connection (room_for l k) (sent ++ map run_event a)))
                  (sym (after-turned n))
                ∙ replay_lem fuel (turned n) k (sent ++ map run_event a) (
                    omega (
                      arith,
                      h,
                      length-drop batch_size (after n),
                      le_of_ltb (length a) batch_size full,
                      ap length (after-turned n),
                    ))
                ∙ ap (replayed (turned n) k (sent ++ map run_event a)) (after-turned n)
                ∙ replayed-append n k sent a b
                ∙ whole)
      ]

  open-replay :
      (fuel n k : ℕ) (sse_retry : Duration) (id : String)
      → length (after n) < fuel
      → n ≤ high
      → n < 2 ^ 31
      → open_stream fuel sse_retry id pages
          (decimal n ∷ [])
          (connection (suc (room_for (after n) (suc k))) [])
        ≡ success (
            going
              (last_sequence n (after n))
              (is_terminal_run run)
              run
              (connection (room_after run k) (replay_frames sse_retry id run (after n))))
  unfolding open_stream complete
  open-replay fuel n k sse_retry id enough below small =
      rw
        (
          parse_last_event_id-decimal n small,
          open_stream,
          serves n,
          not_ahead high n below,
          replay_lem fuel n (suc k) (retry (retry_milliseconds sse_retry) ∷ []) enough,
        )
        (elim (Bool-cases (is_terminal_run run)) [
          | inl over ↦ rw over refl
          | inr open_ ↦ rw open_ (
              ap
                (λ l. success (
                  going (last_sequence n (after n)) false run
                    (connection (suc k) (retry (retry_milliseconds sse_retry) ∷ l))))
                (sym (append-nil (map run_event (after n)))))
        ])

-- A page of the storage is a page of the stored events.
events_after_locked-page :
    (run : Run) (r : MemoryRepository) (n : ℕ)
    → IsAscending 0 (get_or run.id [] r.events)
    → events_after_locked run n batch_size r
      ≡ page_of run (get_or run.id [] r.events) (highest 0 (get_or run.id [] r.events)) n
unfolding page_limit events_after_locked
events_after_locked-page run r n h =
    let (events, high) = events_after_locked_lem run n batch_size r h in
    λ i. record { run = run; events = events i; high_water = high i }

owned-page :
    (project_id id : String) (n limit : ℕ) (r : MemoryRepository)
    → has id r.runs ≡ true
    → get_or id "" r.project_by_run ≡ project_id
    → events_after_for_project project_id id n limit r
      ≡ (events_after_locked (get_or id zero_run r.runs) n limit r, true)
unfolding events_after_for_project
owned-page project_id id n limit r stored owned =
    rw (stored, (eq_iff (get_or id "" r.project_by_run) project_id).1 owned) refl

pub member-serves :
    (project_id id : String) (r : MemoryRepository) (n : ℕ)
    → has id r.runs ≡ true
    → get_or id "" r.project_by_run ≡ project_id
    → let run = get_or id zero_run r.runs in
      IsAscending 0 (get_or run.id [] r.events)
      → event_reader (member project_id) id r n batch_size
        ≡ ok (
            some
              (page_of run (get_or run.id [] r.events) (highest 0 (get_or run.id [] r.events)) n))
unfolding event_reader service_events_after_for_project
member-serves project_id id r n stored owned h =
    ap found_batch (owned-page project_id id n batch_size r stored owned)
    ∙ ap (λ b. ok (some b)) (events_after_locked-page (get_or id zero_run r.runs) r n h)

-- A stream that the owner of a stored run opens with the id of an event that is not ahead sends, over a
-- storage that does not change: the retry delay, every stored event behind the cursor, once and in
-- order, and `run.complete` at the end exactly if the run is over. The conditions are that the
-- events are stored in ascending order, that the cursor is below 2 to the 31, that the connection
-- takes these frames, and fuel for more pages than there are events.
pub open_stream-replay :
    (project_id id : String) (r : MemoryRepository) (fuel n k : ℕ) (sse_retry : Duration)
    → let run = get_or id zero_run r.runs in
      let all = get_or run.id [] r.events in
      let rest = keep (is_after n) all in
      has id r.runs ≡ true
      → get_or id "" r.project_by_run ≡ project_id
      → IsAscending 0 all
      → n ≤ highest 0 all
      → n < 2 ^ 31
      → length rest < fuel
      → open_stream fuel sse_retry id
          (event_reader (member project_id) id r)
          (decimal n ∷ [])
          (connection (suc (room_for rest (suc k))) [])
        ≡ success (
            going
              (last_sequence n rest)
              (is_terminal_run run)
              run
              (connection (room_after run k) (replay_frames sse_retry id run rest)))
open_stream-replay project_id id r fuel n k sse_retry stored owned ascending below small enough =
    let run = get_or id zero_run r.runs in
    let all = get_or run.id [] r.events in
    open-replay run all (highest 0 all) (event_reader (member project_id) id r) ascending
      (λ m. member-serves project_id id r m stored owned ascending) fuel n k sse_retry id enough
      below small
