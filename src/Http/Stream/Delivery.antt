-- ===== src/Http/Stream/Delivery.antt =====
-- A stream that is watched while its log grows sends every event once.
use parity_lab.Prelude.{
  ℕ, suc, ◌+◌, ◌-◌, ◌<◌, ◌≤◌, String, Bool, List, [], ◌∷◌, ◌++◌, some, length, ◌≡◌, sym, ap, subst,
  ◌∙◌, arith, ◌||◌, append-nil, length-append, string_eq,
}
use parity_lab.Prelude.Table.{get_or}
use parity_lab.Failure.{ok}
use parity_lab.Domain.{Run, Event, zero_run}
use parity_lab.Engine.Memory.Stream.Pages.{IsAscending, highest}
use parity_lab.Http.Stream.{
  Frame, heartbeat, Progress, going, is_terminal_run, batch_size, EventBatchReader, event_reader,
  member, poll_pages, Tick, polls, beats, on_tick, watch,
}
use parity_lab.Http.Stream.Events.{last_sequence, last_sequence-append}
use parity_lab.Http.Stream.Writing.{room_for, connection}
use parity_lab.Http.Stream.Replay.{page_of, member-serves}
use parity_lab.Http.Stream.Growth.{
  Grows, rests, beaten, polled, keep-append, length-keep, length-Grows, room_for-length, behind,
  behind-append,
}
use parity_lab.Http.Stream.Frames.{
  delivered, completions, one, delivered-append, completions-append,
}
use parity_lab.Http.Stream.Polling.{IsPolled, poll_pages-IsPolled}

-- a stream that goes on and has sent the events of a log behind its first cursor, once and in order, and
-- `run.complete` once or not yet
pub record IsDelivered (start : ℕ) (log : List Event) (p : Progress) : Type 0 where
  pub done : Bool
  pub run : Run
  pub room : ℕ
  pub sent : List Frame
  pub state : p ≡ going (last_sequence start (behind start log)) done run (connection room sent)
  pub news : delivered sent ≡ behind start log
  pub marks : completions sent ≡ one done

module _ (run : Run) (all : List Event) (high : ℕ) (pages : EventBatchReader)
    (ascending : IsAscending 0 all)
    (serves : (n : ℕ) → pages n batch_size ≡ ok (some (page_of run all high n))) (id : String) where
  on_tick-IsPolled :
      (fuel n room : ℕ) (done : Bool) (seen : Run) (sent : List Frame)
      → length (behind n all) < fuel
      → length (behind n all) < room
      → IsPolled run all high pages ascending serves id n
          (room - suc (length (behind n all)))
          done
          sent
          (on_tick fuel id (polls pages) (going n done seen (connection room sent)))
  unfolding on_tick
  on_tick-IsPolled fuel n room done seen sent enough wide =
      let k = room - suc (length (behind n all)) in
      let fits : room ≡ room_for (behind n all) (suc k) =
        omega (arith, room_for-length (behind n all) (suc k), wide) in
      rw (serves n, on_tick)
        (subst
          (λ m.
            IsPolled run all high pages ascending serves id n k done sent
              (poll_pages fuel id pages (page_of run all high n) n done (connection m sent)))
          (sym fits)
          (poll_pages-IsPolled run all high pages ascending serves id fuel n k done sent enough))

  -- such a poll of a log that has grown
  on_tick-IsDelivered :
      (fuel start : ℕ) (log more : List Event) (done : Bool) (seen : Run) (room : ℕ)
      (sent : List Frame)
      → all ≡ log ++ more
      → delivered sent ≡ behind start log
      → completions sent ≡ one done
      → length all < fuel
      → length more < room
      → (d : IsDelivered start all (
          on_tick fuel id
            (polls pages)
            (going (last_sequence start (behind start log)) done seen (connection room sent))))
        × (room ≤ d.room + suc (length more))
  on_tick-IsDelivered fuel start log more done seen room sent is news marks enough wide =
      let cursor = last_sequence start (behind start log) in
      let new : behind cursor all ≡ behind start more =
        ap (behind cursor) is ∙ behind-append start log more (subst (IsAscending 0) is ascending) in
      let fewer = length-keep start more in
      let p =
        on_tick-IsPolled fuel cursor room done seen sent
          (omega (arith, enough, length-keep cursor all))
          (omega (arith, ap length new, fewer, wide)) in
      let whole : behind start all ≡ behind start log ++ behind start more =
        ap (behind start) is ∙ keep-append start log more in
      (
        record {
          done = done || is_terminal_run run;
          run = run;
          room = p.left;
          sent = sent ++ p.frames;
          state =
              p.result
              ∙ ap
                  (λ n.
                    going n (done || is_terminal_run run) run
                      (connection p.left (sent ++ p.frames)))
                  (ap (last_sequence cursor) new
                    ∙ sym (last_sequence-append start (behind start log) (behind start more))
                    ∙ ap (last_sequence start) (sym whole));
          news = delivered-append sent p.frames ∙ (λ i. news i ++ (p.news ∙ new) i) ∙ sym whole;
          marks = omega (arith, completions-append sent p.frames, marks, p.marks);
        },
        omega (arith, p.room, ap length new, fewer, wide),
      )

on_tick-beat :
    (fuel start : ℕ) (id : String) (log : List Event) (state : Progress)
    (d : IsDelivered start log state)
    → 0 < d.room
    → (e : IsDelivered start log (on_tick fuel id beats state)) × (d.room ≤ e.room + 1)
unfolding on_tick
on_tick-beat fuel start id log state d wide =
    let cursor = last_sequence start (behind start log) in
    let fits : d.room ≡ suc (d.room - 1) = omega (arith, wide) in
    (
      record {
        done = d.done;
        run = d.run;
        room = d.room - 1;
        sent = d.sent ++ (heartbeat ∷ []);
        state =
            ap (on_tick fuel id beats) d.state
            ∙ ap (λ m. on_tick fuel id beats (going cursor d.done d.run (connection m d.sent)))
                fits;
        news = delivered-append d.sent (heartbeat ∷ []) ∙ append-nil (delivered d.sent) ∙ d.news;
        marks = omega (arith, completions-append d.sent (heartbeat ∷ []), d.marks);
      },
      omega arith,
    )

-- A stream of a project's run that goes on sends every event of its log behind its first cursor, once and in
-- order, whatever the ticks are, as the log grows; and it sends `run.complete` once at most. The
-- conditions are that the stream has done so up to the log that it saw, that the logs are ascending
-- and only grow, that the connection takes a frame for each new event and each tick, and fuel for
-- more pages than there are events.
pub watch-IsDelivered :
    (fuel start : ℕ) (project_id id : String) (log last : List Event) (ticks : List Tick)
    (state : Progress) (d : IsDelivered start log state)
    → Grows project_id id log ticks last
    → length last < fuel
    → length last + length ticks ≤ d.room + length log
    → IsDelivered start last (watch fuel id ticks state)
unfolding watch
watch-IsDelivered fuel start project_id id log last ticks state d rests enough wide = d
watch-IsDelivered fuel start project_id id log last ticks state d (beaten {ticks = rest} g) enough
      wide =
    let (e, left) = on_tick-beat fuel start id log state d (omega (arith, wide, length-Grows g)) in
    watch-IsDelivered fuel start project_id id log last rest (on_tick fuel id beats state) e g
      enough (omega (arith, wide, left))
watch-IsDelivered fuel start project_id id log last ticks state d
      (polled {ticks = rest} r more stored owned is ascending g) enough wide =
    let run = get_or id zero_run r.runs in
    let pages = event_reader (member project_id) id r in
    let rises : IsAscending 0 (get_or run.id [] r.events) =
      subst (IsAscending 0) (sym is) ascending in
    let all = get_or run.id [] r.events in
    let sizes = length-append log more in
    let (e, left) =
      on_tick-IsDelivered run all (highest 0 all) pages rises
        (λ n. member-serves project_id id r n stored owned rises) id fuel start log more d.done
        d.run d.room d.sent is d.news d.marks (omega (arith, enough, ap length is, length-Grows g))
        (omega (arith, wide, length-Grows g, sizes)) in
    let next : IsDelivered start (log ++ more) (on_tick fuel id (polls pages) state) = record {
      done = e.done;
      run = e.run;
      room = e.room;
      sent = e.sent;
      state =
          ap (on_tick fuel id (polls pages)) d.state
          ∙ e.state
          ∙ ap
              (λ l.
                going (last_sequence start (behind start l)) e.done e.run
                  (connection e.room e.sent))
              is;
      news = e.news ∙ ap (behind start) is;
      marks = e.marks;
    } in
    watch-IsDelivered fuel start project_id id (log ++ more) last rest
      (on_tick fuel id (polls pages) state) next g enough (omega (arith, wide, left, sizes))
