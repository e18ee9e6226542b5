-- ===== src/Tests/Http.antt =====
-- Webhooks, event streams and numerals of the HTTP API.
use parity_lab.Prelude.{
  ℕ, suc, List, ◌+◌, ◌*◌, ◌<◌, String, Bytes, true, false, [], ◌∷◌, Option, none, some, length,
  keep, ◌≡◌, refl, arith, ◌↔◌, string_eq,
}
use parity_lab.Prelude.Text.{decimal}
use parity_lab.Prelude.Table.{get_or, has, lookup}
use parity_lab.Failure.{ok}
use parity_lab.Domain.{Time, Event, second, minute}
use parity_lab.Engine.Records.{build_webhook_run_event}
use parity_lab.Engine.Memory.{MemoryRepository}
use parity_lab.Engine.Memory.Stream.Pages.{highest, is_after}
use parity_lab.Engine.Service.{success}
use parity_lab.Engine.Service.Ingress.{Envelope, unix_epoch}
use parity_lab.Http.Signature.{verify_stripe_signature}
use parity_lab.Http.Signature.Headers.{header, IsSigned, verify_stripe_signature-header}
use parity_lab.Http.Stream.{
  open_stream, event_reader, member, is_terminal_run, going, Tick, event_stream, polls, beats,
}
use parity_lab.Http.Stream.Growth.{Grows, rests, beaten, polled}
use parity_lab.Http.Stream.Following.{IsFollowed, event_stream-IsFollowed}
use parity_lab.Http.Stream.Events.{last_sequence}
use parity_lab.Http.Stream.Writing.{connection, room_for}
use parity_lab.Http.Stream.Replay.{room_after, replay_frames, open_stream-replay}
use parity_lab.Http.Limiter.{format_retry_after}
use parity_lab.Http.Limiter.RetryAfter.{format_retry_after-decimal}
use parity_lab.Http.Requests.{Config, Request}
use parity_lab.Http.Webhook.{StripeEnvelope}
use parity_lab.Tests.Data.{test_run}
use parity_lab.Tests.Runs.{event_at, two_events, two_events-IsAscending}

abbrev seven : String → String → Bytes
seven secret text = 7 ∷ []

verify_stripe_signature-header_example :
    (verify_stripe_signature seven "body" (header 5 (7 ∷ [])) "s" 9 (5 * minute) ≡ ok tt)
    ↔ IsSigned seven "body" "s" 5 (7 ∷ []) 9 (5 * minute)
verify_stripe_signature-header_example =
    verify_stripe_signature-header seven "body" "s" 5 (7 ∷ []) 9 (5 * minute) (omega arith)
      (omega arith, tt) (omega arith)

format_retry_after-decimal_example : format_retry_after 42 ≡ decimal 42
format_retry_after-decimal_example = format_retry_after-decimal 42 (omega arith)

abbrev owned_events : MemoryRepository
owned_events = record two_events {
  runs = ("run_000004", test_run) ∷ [];
  project_by_run = ("run_000004", "p") ∷ [];
}

owned_events-stored : has "run_000004" owned_events.runs ≡ true
unfolding lookup
owned_events-stored = refl

events_behind : length (keep (is_after 1) (get_or "run_000004" [] two_events.events)) < 3
unfolding lookup build_webhook_run_event
events_behind = omega arith

open_stream-replay_example :
    open_stream 3
      (2 * second)
      "run_000004"
      (event_reader (member "p") "run_000004" owned_events)
      (decimal 1 ∷ [])
      (connection
        (suc (room_for (keep (is_after 1) (get_or "run_000004" [] two_events.events)) (suc 5)))
        [])
    ≡ success (
        going
          (last_sequence 1 (keep (is_after 1) (get_or "run_000004" [] two_events.events)))
          (is_terminal_run test_run)
          test_run
          (connection (room_after test_run 5) (
            replay_frames
              (2 * second)
              "run_000004"
              test_run
              (keep (is_after 1) (get_or "run_000004" [] two_events.events)))))
unfolding lookup highest build_webhook_run_event
open_stream-replay_example =
    open_stream-replay "p" "run_000004" owned_events 3 1 5 (2 * second) owned_events-stored refl
      two_events-IsAscending (omega arith) (omega arith) events_behind

abbrev hook_config : Config ℕ ℕ
hook_config = record {
  web_origin = "";
  webhook_secret = "s";
  endpoint_token = "e";
  signature_max_age = 5 * minute;
  stripe = record { gateway = none; cipher = none };
  auth = none;
  insecure_cookies = false;
  sse_poll_interval = 1;
  sse_heartbeat = 1;
  sse_retry = 1;
  sse_write_timeout = 1;
}

abbrev hook_request : Request
hook_request = record {
  method = "POST";
  path = "/hooks/stripe/e";
  path_value = "e";
  origin = "";
  remote_address = "";
  cookie = none;
  idempotency_key = "";
  stripe_signature = header 5 (7 ∷ []);
  accept = "";
  last_event_ids = [];
  body = some "body";
  request_id = "";
}

abbrev test_event : String → Option StripeEnvelope
test_event body = some (record { id = "evt"; type = "payment_intent.created"; livemode = false })

abbrev test_envelope : String → Envelope
test_envelope body = record {
  created = 1;
  object_id = "pi_1";
  object_status = "";
  correlation_id = "";
}

abbrev hooked : Time
hooked = unix_epoch + 9 * second

abbrev grown_events : MemoryRepository
grown_events = record owned_events {
  events = ("run_000004", event_at 1 ∷ event_at 4 ∷ event_at 5 ∷ []) ∷ [];
}

abbrev grown_log : List Event
grown_log = event_at 1 ∷ event_at 4 ∷ event_at 5 ∷ []

abbrev two_ticks : List Tick
two_ticks = beats ∷ polls (event_reader (member "p") "run_000004" grown_events) ∷ []

grows : Grows "p" "run_000004" (event_at 1 ∷ event_at 4 ∷ []) two_ticks grown_log
unfolding lookup build_webhook_run_event
grows = beaten (
    polled grown_events (event_at 5 ∷ []) refl refl refl
      (omega arith, (omega arith, (omega arith, tt))) rests)

-- the visitor has seen the first event, and the third is added while the stream is followed
event_stream-IsFollowed_example : IsFollowed 1 grown_log (
    event_stream 4 second "run_000004"
      (event_reader (member "p") "run_000004" owned_events)
      (decimal 1 ∷ [])
      two_ticks
      (connection 7 []))
unfolding lookup highest build_webhook_run_event
event_stream-IsFollowed_example =
    event_stream-IsFollowed "p" "run_000004" owned_events 4 1 7 second grown_log two_ticks
      owned_events-stored refl two_events-IsAscending (omega arith) (omega arith) grows
      (omega arith) (omega arith)
