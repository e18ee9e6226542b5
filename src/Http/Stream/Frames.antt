-- ===== src/Http/Stream/Frames.antt =====
-- The events and the completions among the frames of a stream.
use parity_lab.Prelude.{
  ℕ, suc, ◌+◌, Bool, List, [], ◌∷◌, ◌++◌, map, ◌≡◌, refl, ap, arith, if◌then◌else◌,
}
use parity_lab.Domain.{Event}
use parity_lab.Http.Stream.{Frame, retry, run_event, run_complete, heartbeat, stream_error}

-- the events among some frames, and the number of their completions
abbrev pub delivered : List Frame → List Event
delivered [] = []
delivered (run_event event ∷ frames) = event ∷ delivered frames
delivered (retry n ∷ frames) = delivered frames
delivered (run_complete id ∷ frames) = delivered frames
delivered (heartbeat ∷ frames) = delivered frames
delivered (stream_error ∷ frames) = delivered frames

abbrev pub completions : List Frame → ℕ
completions [] = 0
completions (run_event event ∷ frames) = completions frames
completions (retry n ∷ frames) = completions frames
completions (run_complete id ∷ frames) = suc (completions frames)
completions (heartbeat ∷ frames) = completions frames
completions (stream_error ∷ frames) = completions frames

pub delivered-append : (a b : List Frame) → delivered (a ++ b) ≡ delivered a ++ delivered b
delivered-append [] b = refl
delivered-append (run_event event ∷ a) b = ap (λ l. event ∷ l) (delivered-append a b)
delivered-append (retry n ∷ a) b = delivered-append a b
delivered-append (run_complete id ∷ a) b = delivered-append a b
delivered-append (heartbeat ∷ a) b = delivered-append a b
delivered-append (stream_error ∷ a) b = delivered-append a b

pub completions-append : (a b : List Frame) → completions (a ++ b) ≡ completions a + completions b
completions-append [] b = omega arith
completions-append (run_event event ∷ a) b = completions-append a b
completions-append (retry n ∷ a) b = completions-append a b
completions-append (run_complete id ∷ a) b = omega (arith, completions-append a b)
completions-append (heartbeat ∷ a) b = completions-append a b
completions-append (stream_error ∷ a) b = completions-append a b

pub delivered-events : (events : List Event) → delivered (map run_event events) ≡ events
delivered-events [] = refl
delivered-events (event ∷ events) = ap (λ l. event ∷ l) (delivered-events events)

pub completions-events : (events : List Event) → completions (map run_event events) ≡ 0
completions-events [] = refl
completions-events (event ∷ events) = completions-events events

abbrev pub one : Bool → ℕ
one done = if done then 1 else 0
