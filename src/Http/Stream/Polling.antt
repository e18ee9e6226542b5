-- ===== src/Http/Stream/Polling.antt =====
-- One poll of a stream: the pages behind the cursor, and `run.complete` after the first of them.
use parity_lab.Prelude.{
  ℕ, zero, suc, ◌+◌, ◌<◌, ◌≤◌, String, Bool, true, false, List, [], ◌∷◌, ◌++◌, some, ltb, length,
  take, keep, map, ◌≡◌, refl, sym, ap, ◌∙◌, arith, inl, inr, Bool-cases, ◌&&◌, ◌||◌, not,
  append_assoc, append-nil, ◌⊎◌,
}
use parity_lab.Failure.{ok}
use parity_lab.Domain.{Run, Event}
use parity_lab.Engine.Memory.Stream.Pages.{IsAscending, is_after}
use parity_lab.Http.Stream.{
  Frame, run_event, run_complete, Sink, Written, wrote, broken, write_event_batch, is_terminal_run,
  batch_size, EventBatchReader, Progress, going, ended, out_of_fuel, replay, complete, poll_pages,
}
use parity_lab.Http.Stream.Frames.{
  delivered, completions, delivered-append, completions-append, delivered-events,
  completions-events, one,
}
use parity_lab.Http.Stream.Events.{
  drop, last_sequence, take-drop, drop_short, last_sequence-append, length-drop,
}
use parity_lab.Http.Stream.Writing.{room_for, connection, lt_of_ltb, le_of_ltb}
use parity_lab.Http.Stream.Replay.{page_of, turned, after-turned, page-written, replay_lem}

-- a stream that goes on, with the mark that `run.complete` was sent or was not
abbrev marked_as : Bool → Progress → Progress
marked_as done (going last sent run sink) = going last done run sink
marked_as done (ended sink) = ended sink
marked_as done out_of_fuel = out_of_fuel

Written-cases :
    (w : Written) → ((last : ℕ) × (s : Sink) × (w ≡ wrote last s)) ⊎ ((s : Sink) × (w ≡ broken s))
Written-cases (wrote last s) = inl (last, s, refl)
Written-cases (broken s) = inr (s, refl)

suc-room_for : (events : List Event) (k : ℕ) → room_for events (suc k) ≡ suc (room_for events k)
suc-room_for [] k = refl
suc-room_for (event ∷ events) k = ap (λ n. suc n) (suc-room_for events k)

module _ (run : Run) (all : List Event) (high : ℕ) (pages : EventBatchReader)
    (ascending : IsAscending 0 all)
    (serves : (n : ℕ) → pages n batch_size ≡ ok (some (page_of run all high n))) (id : String) where
  -- where nothing is to be completed, a poll is a replay
  poll_pages-replay :
      (fuel n : ℕ) (done : Bool) (sink : Sink)
      → (not done && is_terminal_run run) ≡ false
      → poll_pages fuel id pages (page_of run all high n) n done sink
        ≡ marked_as done (replay fuel pages (page_of run all high n) n sink)
  unfolding poll_pages replay complete
  poll_pages-replay zero n done sink quiet = refl
  poll_pages-replay (suc fuel) n done sink quiet =
      let events = take batch_size (keep (is_after n) all) in
      elim (Written-cases (write_event_batch events n sink)) [
        | inr (s, cut) ↦ rw (cut, poll_pages, replay) refl
        | inl (next, s, is) ↦ elim (Bool-cases (ltb (length events) batch_size)) [
          | inl short ↦ rw (is, quiet, short, poll_pages, replay, complete) refl
          | inr full ↦
              rw (is, quiet, full, serves next, poll_pages, replay, complete)
                (poll_pages-replay fuel next done s quiet)
        ]
      ]

  -- what a poll leaves that had room for the new events and `suc k` frames more
  pub record IsPolled (n k : ℕ) (done : Bool) (sent : List Frame) (p : Progress) : Type 0 where
    pub frames : List Frame
    pub left : ℕ
    pub result :
        p
        ≡ going
            (last_sequence n (keep (is_after n) all))
            (done || is_terminal_run run)
            run
            (connection left (sent ++ frames))
    pub news : delivered frames ≡ keep (is_after n) all
    pub marks : completions frames + one done ≡ one (done || is_terminal_run run)
    pub room : k ≤ left

  quiet-IsPolled :
      (fuel n k : ℕ) (done : Bool) (sent : List Frame)
      → (not done && is_terminal_run run) ≡ false
      → length (keep (is_after n) all) < fuel
      → IsPolled n k done sent (
          poll_pages fuel id pages
            (page_of run all high n)
            n
            done
            (connection (room_for (keep (is_after n) all) (suc k)) sent))
  quiet-IsPolled fuel n k done sent quiet enough =
      let rest = keep (is_after n) all in
      let same : done ≡ (done || is_terminal_run run) = ground (arith, quiet) in
      record {
        frames = map run_event rest;
        left = suc k;
        result =
            poll_pages-replay fuel n done (connection (room_for rest (suc k)) sent) quiet
            ∙ ap (marked_as done)
                (replay_lem run all high pages ascending serves fuel n (suc k) sent enough)
            ∙ ap
                (λ d.
                  going (last_sequence n rest) d run
                    (connection (suc k) (sent ++ map run_event rest)))
                same;
        news = delivered-events rest;
        marks = omega (arith, completions-events rest, ap one same);
        room = omega arith;
      }

  abbrev new_events : ℕ → List Event
  new_events n = keep (is_after n) all

  -- what was sent by a poll that completes the stream after its first page
  abbrev closing : List Frame → List Event → List Event → List Frame
  closing sent a b = sent ++ (map run_event a ++ (run_complete id ∷ map run_event b))

  closing_lem :
      (sent : List Frame) (a b : List Event)
      → ((sent ++ map run_event a) ++ (run_complete id ∷ [])) ++ map run_event b ≡ closing sent a b
  closing_lem sent a b =
      append_assoc (sent ++ map run_event a) (run_complete id ∷ []) (map run_event b)
      ∙ append_assoc sent (map run_event a) (run_complete id ∷ map run_event b)

  -- the state after the first page of such a poll
  abbrev closed : ℕ → ℕ → List Frame → Sink
  closed n k sent =
      connection (room_for (drop batch_size (new_events n)) k)
        ((sent ++ map run_event (take batch_size (new_events n))) ++ (run_complete id ∷ []))

  complete-closed :
      (n k : ℕ) (sent : List Frame)
      → is_terminal_run run ≡ true
      → complete id (
          going (turned run all high pages ascending serves n) false run (
            connection
              (room_for (drop batch_size (new_events n)) (suc k))
              (sent ++ map run_event (take batch_size (new_events n)))))
        ≡ going (turned run all high pages ascending serves n) true run (closed n k sent)
  unfolding complete
  complete-closed n k sent over =
      rw (over, suc-room_for (drop batch_size (new_events n)) k, complete) refl

  closing-result :
      (fuel n k : ℕ) (sent : List Frame)
      → is_terminal_run run ≡ true
      → length (new_events n) < suc fuel
      → poll_pages
          (suc fuel)
          id
          pages
          (page_of run all high n)
          n
          false
          (connection (room_for (new_events n) (suc k)) sent)
        ≡ going (last_sequence n (new_events n)) true run (
            connection k
              (closing sent (take batch_size (new_events n)) (drop batch_size (new_events n))))
  unfolding poll_pages
  closing-result fuel n k sent over enough =
      let rest = new_events n in
      let a = take batch_size rest in
      let b = drop batch_size rest in
      let next = turned run all high pages ascending serves n in
      let first = page-written run all high pages ascending serves n (suc k) sent in
      let turn = after-turned run all high pages ascending serves n in
      let cursor : last_sequence next b ≡ last_sequence n rest =
        sym (last_sequence-append n a b) ∙ ap (last_sequence n) (take-drop batch_size rest) in
      let begun = (sent ++ map run_event a) ++ (run_complete id ∷ []) in
      let landed : List Event → Progress =
        λ c. going (last_sequence next c) true run (connection k (begun ++ map run_event c)) in
      let whole : landed b
          ≡ going (last_sequence n rest) true run (connection k (closing sent a b)) =
        λ i. going (cursor i) true run (connection k (closing_lem sent a b i)) in
      elim (Bool-cases (ltb (length a) batch_size)) [
        | inl short ↦
            let none_left = drop_short batch_size rest (lt_of_ltb (length a) batch_size short) in
            rw (first, complete-closed n k sent over, short, poll_pages)
              (ap (λ l. going next true run (connection (room_for l k) begun)) none_left
                ∙ ap (λ l. going next true run (connection k l)) (sym (append-nil begun))
                ∙ ap landed (sym none_left)
                ∙ whole)
        | inr full ↦
            rw (first, complete-closed n k sent over, full, serves next, poll_pages)
              (poll_pages-replay fuel next true (closed n k sent) refl
                ∙ ap
                    (λ l. marked_as true (
                      replay fuel pages (page_of run all high next) next
                        (connection (room_for l k) begun)))
                    (sym turn)
                ∙ ap (marked_as true) (
                    replay_lem run all high pages ascending serves fuel next k begun (
                      omega (
                        arith,
                        enough,
                        length-drop batch_size rest,
                        le_of_ltb (length a) batch_size full,
                        ap length turn,
                      )))
                ∙ ap landed turn
                ∙ whole)
      ]

  closing-IsPolled :
      (fuel n k : ℕ) (sent : List Frame)
      → is_terminal_run run ≡ true
      → length (new_events n) < suc fuel
      → IsPolled n k false sent (
          poll_pages
            (suc fuel)
            id
            pages
            (page_of run all high n)
            n
            false
            (connection (room_for (new_events n) (suc k)) sent))
  closing-IsPolled fuel n k sent over enough =
      let rest = new_events n in
      let a = take batch_size rest in
      let b = drop batch_size rest in
      record {
        frames = map run_event a ++ (run_complete id ∷ map run_event b);
        left = k;
        result =
            closing-result fuel n k sent over enough
            ∙ ap (λ d. going (last_sequence n rest) d run (connection k (closing sent a b)))
                (sym over);
        news =
            delivered-append (map run_event a) (run_complete id ∷ map run_event b)
            ∙ (λ i. delivered-events a i ++ delivered-events b i)
            ∙ take-drop batch_size rest;
        marks = omega (
          arith,
          completions-append (map run_event a) (run_complete id ∷ map run_event b),
          completions-events a,
          completions-events b,
          ap one over,
        );
        room = omega arith;
      }

  -- With fuel for the pages and room for its frames, a poll sends the events behind the cursor once and in
  -- order, and completes the stream at most once.
  pub poll_pages-IsPolled :
      (fuel n k : ℕ) (done : Bool) (sent : List Frame)
      → length (new_events n) < fuel
      → IsPolled n k done sent (
          poll_pages fuel id pages
            (page_of run all high n)
            n
            done
            (connection (room_for (new_events n) (suc k)) sent))
  poll_pages-IsPolled zero n k done sent enough = absurd (omega (arith, enough))
  poll_pages-IsPolled (suc fuel) n k true sent enough =
      quiet-IsPolled (suc fuel) n k true sent refl enough
  poll_pages-IsPolled (suc fuel) n k false sent enough = elim (Bool-cases (is_terminal_run run)) [
    | inl over ↦ closing-IsPolled fuel n k sent over enough
    | inr open_ ↦ quiet-IsPolled (suc fuel) n k false sent open_ enough
  ]
