-- ===== src/Tests/Data.antt =====
-- The inputs that the tests share.
use parity_lab.Prelude.{
  ℕ, String, Bytes, [], ◌∷◌, Option, none, ◌==◌, string_eq, if◌then◌else◌, ◌<◌, ◌*◌, ◌-◌, ◌%◌,
  arith, ap,
}
use parity_lab.Failure.{Failure}
use parity_lab.Domain.{Run, Duration, second, zero_run, zero_report, Report, no_fault}
use parity_lab.Engine.Records.{Digest, RunBundle, RawMessage, object}
use parity_lab.Engine.Memory.{MemoryRepository, new_memory_repository, put_outbox}
use parity_lab.Engine.Memory.Outbox.Settling.{IsOrderly, IsNamed, new-IsOrderly, Step-IsOrderly}
use parity_lab.Engine.Memory.Outbox.Steps.{put}
use parity_lab.Verification.Signing.{IsByteMac}

abbrev pub thirty_seconds : Duration
thirty_seconds = 30 * second

-- a digest that tells two texts apart if one ends in a zero
abbrev pub test_mac : String → String → Bytes
test_mac key text =
    (if Prim.Native.String.slice text (Prim.Native.String.len text - 1)
          (Prim.Native.String.len text)
        == "0"
      then 0
      else 1)
    ∷ []

abbrev pub test_secret : String
test_secret = "0123456789abcdef"

pub test_mac-IsByteMac : IsByteMac test_mac test_secret
test_mac-IsByteMac m = (ground arith, tt)

abbrev pub test_sha256 : String → Digest
test_sha256 text = Prim.Native.String.len text % 256 ∷ 171 ∷ []

abbrev pub live : ℕ → Option Failure
live n = none

abbrev pub test_run : Run
test_run = record zero_run { id = "run_000004"; stripe_object_id = "pi_1" }

abbrev pub test_report : Report
test_report = record zero_report { run = test_run }

abbrev pub test_bundle : RunBundle
test_bundle = record {
  run = test_run;
  events = [];
  report = test_report;
  outbox_topic = "";
  stripe_correlation_id = "plcorr_1";
  verification_fault = no_fault;
}

-- a repository with one message
abbrev pub test_payload : RawMessage
test_payload = object (("run_id", "run_000004") ∷ [])

abbrev pub one_message : MemoryRepository
one_message = put_outbox 0 "run.persisted" "run_000004" test_payload new_memory_repository

pub one_message-IsOrderly : IsOrderly one_message
one_message-IsOrderly =
    Step-IsOrderly thirty_seconds IsNamed (λ owner named. named)
      {m = record { now = 0; repo = new_memory_repository }} new-IsOrderly
      (put "run.persisted" "run_000004" test_payload)

pub is_named : (owner : String) → 0 < Prim.Native.String.len owner → IsNamed owner
is_named owner h = λ e. omega (arith, h, ap Prim.Native.String.len e)
