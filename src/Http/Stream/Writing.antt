-- ===== src/Http/Stream/Writing.antt =====
-- httpapi/handler.go: a batch of ascending events that is written to a connection with room for it.
use parity_lab.Prelude.{
  ℕ, suc, ◌<◌, ◌≤◌, true, false, List, [], ◌∷◌, ◌++◌, ltb, leb, map, ◌≡◌, refl, sym, ap, ◌∙◌, arith,
  append_assoc, append-nil, string_eq,
}
use parity_lab.Domain.{Event}
use parity_lab.Engine.Memory.Stream.Pages.{IsAscending}
use parity_lab.Http.Stream.{Frame, run_event, Sink, wrote, write_event_batch}
use parity_lab.Http.Stream.Events.{last_sequence}

-- the frames that some events take, and `k` more
abbrev pub room_for : List Event → ℕ → ℕ
room_for [] k = k
room_for (event ∷ events) k = suc (room_for events k)

abbrev pub connection : ℕ → List Frame → Sink
connection room sent = record { room = room; sent = sent }

-- Events that ascend from the cursor are all written, if there is room.
pub write_event_batch_lem :
    (events : List Event) (last k : ℕ) (sent : List Frame)
    → IsAscending last events
    → write_event_batch events last (connection (room_for events k) sent)
      ≡ wrote (last_sequence last events) (connection k (sent ++ map run_event events))
unfolding write_event_batch
write_event_batch_lem [] last k sent h =
    ap (λ l. wrote last (connection k l)) (sym (append-nil sent))
write_event_batch_lem (event ∷ events) last k sent h =
    rw (newer last event h.0, write_event_batch)
      (write_event_batch_lem events event.sequence k (sent ++ (run_event event ∷ [])) h.1
        ∙ ap (λ l. wrote (last_sequence event.sequence events) (connection k l))
            (append_assoc sent (run_event event ∷ []) (map run_event events)))
  where
    newer : (last : ℕ) (event : Event) → last < event.sequence → leb event.sequence last ≡ false
    newer last event lt = ground arith

pub room_for-append : (a b : List Event) (k : ℕ) → room_for (a ++ b) k ≡ room_for a (room_for b k)
room_for-append [] b k = refl
room_for-append (event ∷ a) b k = ap (λ n. suc n) (room_for-append a b k)

pub map-append : (a b : List Event) → map run_event (a ++ b) ≡ map run_event a ++ map run_event b
map-append [] b = refl
map-append (event ∷ a) b = ap (λ l. run_event event ∷ l) (map-append a b)

pub lt_of_ltb : (m n : ℕ) → ltb m n ≡ true → m < n
lt_of_ltb m n h = ground arith

pub le_of_ltb : (m n : ℕ) → ltb m n ≡ false → n ≤ m
le_of_ltb m n h = ground arith

pub not_ahead : (high n : ℕ) → n ≤ high → ltb high n ≡ false
not_ahead high n h = ground arith
