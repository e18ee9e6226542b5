-- ===== src/Worker/Loop.antt =====
-- services/api/internal/worker/worker.go: the loop of `Run`. A turn is what one round of it meets: the
-- context of its job and its clocks. The rounds between two ticks take fuel; the ticks are a list, after
-- which the context is cancelled.
pub mod Budget
pub mod Idle
use parity_lab.Prelude.{ℕ, zero, suc, ◌+◌, String, Bytes, Bool, true, false, List, [], ◌∷◌}
use parity_lab.Failure.{Failure, Try, ok, err}
use parity_lab.Domain.{Time}
use parity_lab.Engine.Records.{Digest}
use parity_lab.Engine.Memory.{MemoryRepository}
use parity_lab.Verification.Relay.{Context}
use parity_lab.Worker.{Config, run_once}

pub record Turn : Type 0 where
  pub ctx : Context
  pub claimed : Time
  pub ticks : List Time
  pub ended : Time

-- how the rounds between two ticks end: with nothing to claim, after a number of them; with an error; or
-- out of fuel
pub data Drained : Type 0 where
  idle : ℕ → MemoryRepository → Drained
  stopped : Failure → MemoryRepository → Drained
  out_of_fuel : Drained

-- how `Run` ends
pub data Ended : Type 0 where
  cancelled : MemoryRepository → Ended
  failed_with : Failure → MemoryRepository → Ended
  no_fuel : Ended

-- what follows a round, with the rest of the loop
abbrev pub continued : Drained → ℕ → (Bool × Try (Unit {0})) × MemoryRepository → Drained
continued rest n ((processed, err e), after) = stopped e after
continued rest n ((true, ok done), after) = rest
continued rest n ((false, ok done), after) = idle n after

module _ (hmac : String → String → Bytes) (sha256 : String → Digest) (secret : String)
    (config : Config) where
  -- one round of the loop, at a turn
  abbrev pub round : Turn → MemoryRepository → (Bool × Try (Unit {0})) × MemoryRepository
  round t r = run_once hmac sha256 secret config t.ctx t.claimed t.ticks t.ended r

  -- the rounds from the `n`-th on, until one finds nothing to claim
  unfoldable pub drain : ℕ → ℕ → (ℕ → Turn) → MemoryRepository → Drained
  drain zero n turns r = out_of_fuel
  drain (suc fuel) n turns r =
      let out = round (turns n) r in
      let rest = drain fuel (n + 1) turns out.1 in continued rest n out

  -- `Run`: the rounds at once, and after every tick
  unfoldable pub run : ℕ → List (ℕ → Turn) → MemoryRepository → Ended
  unfolding drain
  run fuel [] r = cancelled r
  run fuel (turns ∷ ticks) r = elim (drain fuel 0 turns r) [
    | idle n after ↦ run fuel ticks after
    | stopped e after ↦ failed_with e after
    | out_of_fuel ↦ no_fuel
  ]
