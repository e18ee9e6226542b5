-- ===== src/Tests/Worker.antt =====
-- A worker that claims, verifies and settles.
use parity_lab.Prelude.{
  ℕ, ◌+◌, ◌*◌, ◌≤◌, ◌<◌, true, false, [], ◌∷◌, some, string_eq, ◌≡◌, refl, ◌≢◌, arith,
  if◌then◌else◌, ltb,
}
use parity_lab.Prelude.Text.{decimal, padded}
use parity_lab.Prelude.Hex.{hex_encode}
use parity_lab.Prelude.Table.{lookup, insert}
use parity_lab.Domain.{tamper, second, minute}
use parity_lab.Engine.Records.{has_assertion, OutboxMessage}
use parity_lab.Engine.Memory.{
  MemoryRepository, new_memory_repository, put_outbox, enqueue, fresh_item,
}
use parity_lab.Engine.Memory.Runs.{create_run}
use parity_lab.Engine.Memory.Outbox.{claim_outbox, claimable, contains_topic, locked_for}
use parity_lab.Verification.Signing.{signing_input, strings_of_zero}
use parity_lab.Verification.Relay.{envelope, tampered}
use parity_lab.Worker.{Config, retry_delay, worker_topics, run_once}
use parity_lab.Worker.Jobs.{base_delivery, verify_run, process}
use parity_lab.Worker.Delays.{retry_delay-doubles}
use parity_lab.Worker.Convergence.{IsVerified, verify_run-IsVerified}
use parity_lab.Worker.Settling.{Settles}
use parity_lab.Worker.Rounds.{run_once-Settles}
use parity_lab.Worker.Loop.{Turn, drain}
use parity_lab.Worker.Loop.Budget.{budget}
use parity_lab.Worker.Loop.Idle.{IsAtRest, drain-IsAtRest}
use parity_lab.Tests.Data.{
  test_mac, test_secret, test_mac-IsByteMac, test_sha256, live, test_bundle, test_run, test_report,
  one_message, one_message-IsOrderly, thirty_seconds, test_payload,
}

retry_delay-doubles_example :
    (second ≤ retry_delay 3)
    × (retry_delay 3 ≤ 32 * second)
    × (retry_delay 4
        ≡ (if ltb 3 1 then retry_delay 3 else if ltb 3 6 then 2 * retry_delay 3 else retry_delay 3))
retry_delay-doubles_example = retry_delay-doubles 3

abbrev empty_config : Config
empty_config = record { id = ""; lease = 0; poll = 0; max_attempts = 0 }

abbrev with_run : MemoryRepository
with_run = (create_run 0 (1 ∷ []) (2 ∷ []) test_bundle new_memory_repository).1

report_stored : lookup test_run.id with_run.reports ≡ some test_report
unfolding create_run new_memory_repository lookup insert enqueue put_outbox
report_stored = refl

no_evidence : has_assertion test_report.assertions "assert_reference_merchant_exactly_once" ≡ false
unfolding has_assertion
no_evidence = refl

tampering_shows :
    test_mac test_secret (
      signing_input (
        tampered (
          envelope test_mac test_secret (base_delivery test_mac test_sha256 test_secret test_run))))
    ≢ test_mac test_secret (
        signing_input
          (envelope test_mac test_secret (base_delivery test_mac test_sha256 test_secret test_run)))
unfolding tampered envelope signing_input decimal strings_of_zero base_delivery hex_encode
tampering_shows = ground arith

verify_run-IsVerified_example :
    IsVerified test_run tamper test_report with_run
      (verify_run test_mac test_sha256 test_secret live test_run tamper with_run)
verify_run-IsVerified_example =
    verify_run-IsVerified test_mac test_sha256 test_secret live test_run tamper test_report with_run
      test_mac-IsByteMac (λ n. refl) tt report_stored no_evidence tampering_shows

abbrev config : Config
config = record { id = "worker-1"; lease = thirty_seconds; poll = second; max_attempts = 5 }

abbrev job : OutboxMessage
job =
    (locked_for "worker-1" 0
      (fresh_item 0 "outbox_000001" "run.persisted" "run_000004" test_payload)).message

job_claimed : (claim_outbox 0 config.id config.lease worker_topics one_message).0 ≡ some job
unfolding claim_outbox put_outbox new_memory_repository lookup insert claimable contains_topic
    padded
job_claimed = refl

run_once-Settles_example :
    ((run_once test_mac test_sha256 test_secret config live 0 (second ∷ []) second one_message).0.0
      ≡ true)
    × Settles second config job.attempts
        (process test_mac test_sha256 test_secret live 0 job
          (claim_outbox 0 config.id config.lease worker_topics one_message).1).0
        job.id
        (
          (run_once test_mac test_sha256 test_secret config live 0
              (second ∷ [])
              second
              one_message).0.1,
          (run_once test_mac test_sha256 test_secret config live 0
              (second ∷ [])
              second
              one_message).1,
        )
run_once-Settles_example =
    run_once-Settles test_mac test_sha256 test_secret config live 0 (second ∷ []) second one_message
      one_message-IsOrderly job_claimed

-- a worker whose clocks are a minute on from one round to the next
abbrev turn : ℕ → Turn
turn n = record {
  ctx = live;
  claimed = n * minute;
  ticks = n * minute ∷ [];
  ended = n * minute + second;
}

enough_rounds : budget config.max_attempts one_message.outbox < 8
unfolding budget put_outbox new_memory_repository insert
enough_rounds = omega arith

drain-IsAtRest_example :
    IsAtRest test_mac test_sha256 test_secret config 0 turn one_message
      (drain test_mac test_sha256 test_secret config 8 0 turn one_message)
drain-IsAtRest_example =
    drain-IsAtRest test_mac test_sha256 test_secret config 8 0 turn one_message
      (record { keyed = one_message-IsOrderly.keyed }) enough_rounds
