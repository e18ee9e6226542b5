-- ===== src/Tests/Logins.antt =====
-- Requests with sessions, throttled logins and payments.
use parity_lab.Prelude.{
  ℕ, Bytes, ◌==◌, bytes_eq, if◌then◌else◌, ◌+◌, ◌*◌, String, Bool, true, false, List, [], ◌∷◌,
  Option, none, some, ◌≡◌, ◌≢◌, refl, arith, ◌⊎◌, inl, eq_iff, string_eq,
}
use parity_lab.Prelude.Text.Numerals.{pos}
use parity_lab.Prelude.Text.Split.{trim_space, split, cut, parse_uint}
use parity_lab.Prelude.Hex.{hex_encode, hex_decode}
use parity_lab.Prelude.Table.{lookup, insert}
use parity_lab.Failure.{ok}
use parity_lab.Domain.{minute}
use parity_lab.Secrets.{Aead, Cipher, ascii_bytes, blind_index, decrypt}
use parity_lab.Engine.Memory.{new_memory_repository, enqueue, put_outbox}
use parity_lab.Engine.Memory.Runs.{run_for_project, create_run_for_project}
use parity_lab.Engine.Service.Reads.{service_run_for_project}
use parity_lab.Engine.Service.Ingress.{has_prefix}
use parity_lab.Engine.Stripe.{
  StripeGateway, StripeService, validate_connection, validate_sandbox_secret,
}
use parity_lab.Engine.Stripe.Connecting.{IsUsable, validate_connection-IsUsable}
use parity_lab.Engine.Stripe.Payments.{create_payment_intent_run}
use parity_lab.Engine.Stripe.Charges.{create_payment_intent_run-IsOnce}
use parity_lab.Engine.Stripe.Charges as Charges
use parity_lab.Auth.Memory.{AuthMemory, auth_memory_repository}
use parity_lab.Auth.Password.{verify_password}
use parity_lab.Auth.Service.Accounts.{login, session}
use parity_lab.Http.Limiter.{LoginLimiter}
use parity_lab.Http.Requests.{Config, Request, Reply, empty, serve_http, decode_json_body}
use parity_lab.Http.Requests.Gate.{IsStopped, serve_http-forged}
use parity_lab.Http.Reads.{run, viewer_of}
use parity_lab.Http.Reads.Privacy.{is_shown, IsMember, is_shown-IsMember}
use parity_lab.Http.Logins.{LoginRequest}
use parity_lab.Http.Logins.Throttled.{Visit, IsTry, IsGuess}
use parity_lab.Tests.Data.{test_sha256}
use parity_lab.Tests.Auth.{
  test_library, test_service, test_cipher, one_account, address, token, logged_in,
}
use parity_lab.Tests.Runs.{created_for_p, p_named, p_reads, no_number}

abbrev test_gateway : StripeGateway ℕ
test_gateway = record {
  validate_account = λ secret calls. (ok (record { id = "acct_1" }), calls + 1);
  create_payment_intent = λ secret params calls. (
    ok (record {
      id = "pi_1";
      status = "requires_payment_method";
      amount = params.amount_minor;
      currency = params.currency;
    }),
    calls + 1,
  );
}

abbrev test_stripe : StripeService ℕ
test_stripe = record { gateway = some test_gateway; cipher = some test_cipher }

create_payment_intent_run-IsOnce_example :
    Charges.IsOnce test_sha256 no_number 0 1 "p" "c"
      (pos 500)
      "eur"
      "key"
      "body"
      new_memory_repository
      0
      7
      (λ t.
        create_payment_intent_run test_sha256 no_number test_stripe t "p" "c"
          (pos 500)
          "eur"
          "key"
          "body")
create_payment_intent_run-IsOnce_example =
    create_payment_intent_run-IsOnce test_sha256 no_number 0 1 "p" "c" (pos 500) "eur" "key" "body"
      new_memory_repository 0 7 test_stripe

abbrev test_config : Config AuthMemory ℕ
test_config = record {
  web_origin = "https://app.test";
  webhook_secret = "";
  endpoint_token = "";
  signature_max_age = 5 * minute;
  stripe = test_stripe;
  auth = some test_service;
  insecure_cookies = false;
  sse_poll_interval = 1;
  sse_heartbeat = 1;
  sse_retry = 1;
  sse_write_timeout = 1;
}

abbrev with_cookie : Request
with_cookie = record {
  method = "POST";
  path = "/v1/runs";
  path_value = "run_000004";
  origin = "https://evil.test";
  remote_address = "10.0.0.1:99";
  cookie = some token;
  idempotency_key = "";
  stripe_signature = "";
  accept = "";
  last_event_ids = [];
  body = some "body";
  request_id = "";
}

-- a handler that counts its requests
abbrev counter : Request → ℕ → Reply ℕ × ℕ
counter req n = (([], empty 204), n + 1)

evil_origin : with_cookie.origin ≢ test_config.web_origin
evil_origin = ground (arith, eq_iff with_cookie.origin test_config.web_origin)

token_present : token ≢ ""
unfolding hex_encode
token_present = ground (arith, eq_iff token "")

serve_http-forged_example :
    (((serve_http test_config counter with_cookie 0 5).1 ≡ 5)
      × IsStopped (serve_http test_config counter with_cookie 0 5).0)
    ⊎ ((with_cookie.method ≡ "GET")
        ⊎ ((with_cookie.method ≡ "HEAD") ⊎ (has_prefix with_cookie.path "/hooks/stripe/" ≡ true)))
serve_http-forged_example =
    serve_http-forged test_config test_service counter with_cookie token 0 5 refl evil_origin refl
      token_present

run_is_shown :
    is_shown (run test_library 1000 (some test_service) with_cookie logged_in.1 created_for_p)
    ≡ true
unfolding run viewer_of hex_encode session auth_memory_repository lookup login blind_index
    trim_space verify_password split cut parse_uint hex_decode insert decrypt
    service_run_for_project run_for_project create_run_for_project new_memory_repository enqueue
    put_outbox
run_is_shown = refl

is_shown-IsMember_example : IsMember test_library 1000 test_service with_cookie logged_in.1 "p"
is_shown-IsMember_example =
    is_shown-IsMember test_library 1000 test_service with_cookie logged_in.1 "p" created_for_p
      p_named p_reads 1 minute [] (record { room = 2; sent = [] }) (inl run_is_shown)

-- a body is a password for the one account
abbrev test_decode : String → Option (LoginRequest × Bool)
test_decode body = some (record { email = address; password = body }, true)

abbrev no_failures : LoginLimiter
no_failures = record { buckets = []; ops = 0 }

abbrev no_host : String → Option String
no_host remote = none

abbrev visit : ℕ → String → Visit
visit t password = record {
  at = t;
  drawn = none;
  req = record with_cookie { body = some password };
}

abbrev IsTestGuess : Visit → Type 0
IsTestGuess =
    IsGuess test_library test_config no_host test_decode test_service one_account "10.0.0.1:99"
      address

abbrev tried :
    (t : ℕ) (password : String)
    → IsTry test_library test_config no_host test_decode test_service one_account "10.0.0.1:99"
        address
        (visit t password)
        (record { email = address; password = password })
unfolding decode_json_body
tried t password = record { decoded = refl; sender = refl; account = refl }

abbrev guesses : List Visit
guesses =
    visit 1 "b"
    ∷ visit 2 "a"
    ∷ visit 3 "b"
    ∷ visit 4 "a"
    ∷ visit 5 "b"
    ∷ visit 6 "a"
    ∷ visit 7 "b"
    ∷ []

-- an AEAD that unseals one secret
abbrev key_aead : Aead
key_aead = record {
  nonce_size = 2;
  seal = λ nonce plaintext associated. ascii_bytes plaintext;
  unseal = λ nonce payload associated.
      if payload == ascii_bytes "sk_test_1" then some "sk_test_1" else none;
}

abbrev key_cipher : Cipher
key_cipher = record { aead = key_aead; index_key = [] }

abbrev sixteen : Bytes
sixteen = 1 ∷ 2 ∷ 3 ∷ 4 ∷ 5 ∷ 6 ∷ 255 ∷ 8 ∷ 255 ∷ 10 ∷ 11 ∷ 12 ∷ 13 ∷ 14 ∷ 15 ∷ 16 ∷ []

validate_connection-IsUsable_example :
    IsUsable test_sha256 no_number test_gateway key_cipher "p" " sk_test_1\n" (
      validate_connection 3
        (some sixteen)
        (some (7 ∷ 8 ∷ []))
        (record { gateway = some test_gateway; cipher = some key_cipher })
        "p"
        " sk_test_1\n"
        "Shop"
        new_memory_repository
        0)
unfolding trim_space validate_sandbox_secret new_memory_repository
validate_connection-IsUsable_example =
    validate_connection-IsUsable test_sha256 no_number test_gateway key_cipher "p" " sk_test_1\n" 3
      sixteen (7 ∷ 8 ∷ []) "Shop" (record { id = "acct_1" }) new_memory_repository 0 (ground arith)
      refl refl refl refl refl refl tt
