-- ===== src/Http/Requests.antt =====
-- httpapi/handler.go: what every handler shares. A request is its parts that the handlers read; `body` is
-- `none` if it is over a mebibyte, and `cookie` is `none` without a session cookie. A handler that
-- writes nothing answers 200 with no body, as `net/http` does. Durations are at least 0.
pub mod Gate
use Prim.Native.Nat.{◌^◌, ◌%◌}
use parity_lab.Prelude.{
  ℕ, zero, suc, ◌+◌, ◌*◌, ◌/◌, String, Bytes, Bool, true, false, List, [], ◌∷◌, ◌++◌, Option, none,
  some, num_eq, ◌==◌, string_eq, if◌then◌else◌, ◌&&◌, ◌||◌, not,
}
use parity_lab.Prelude.Text.{◌<>◌}
use parity_lab.Prelude.Text.Numerals.{ℤ}
use parity_lab.Prelude.Hex.{hex_encode}
use parity_lab.Domain.{Duration, millisecond, second, minute}
use parity_lab.Domain.Errors.{ApiError, invalid, forbidden}
use parity_lab.Engine.Service.{Answer, success, failure}
use parity_lab.Engine.Service.Ingress.{has_prefix}
use parity_lab.Engine.Stripe.{StripeService}
use parity_lab.Auth.Service.{Service}

pub record Config (S G : Type 0) : Type 0 where
  pub web_origin : String
  pub webhook_secret : String
  pub endpoint_token : String
  pub signature_max_age : Duration
  pub stripe : StripeService G
  pub auth : Option (Service S)
  pub insecure_cookies : Bool
  pub sse_poll_interval : Duration
  pub sse_heartbeat : Duration
  pub sse_retry : Duration
  pub sse_write_timeout : Duration

abbrev default : Duration → Duration → Duration
default given other = if num_eq given 0 then other else given

-- the defaults that `New` fills in
unfoldable pub filled_config : {S G : Type 0} → Config S G → Config S G
filled_config config = record config {
  web_origin = if config.web_origin == "" then "http://localhost:3000" else config.web_origin;
  signature_max_age = default config.signature_max_age (5 * minute);
  sse_poll_interval = default config.sse_poll_interval (500 * millisecond);
  sse_heartbeat = default config.sse_heartbeat (15 * second);
  sse_retry = default config.sse_retry (2 * second);
  sse_write_timeout = default config.sse_write_timeout (10 * second);
}

pub record Request : Type 0 where
  pub method : String
  pub path : String
  pub path_value : String
  pub origin : String
  pub remote_address : String
  pub cookie : Option String
  pub idempotency_key : String
  pub stripe_signature : String
  pub accept : String
  pub last_event_ids : List String
  pub body : Option String
  pub request_id : String

pub data Header : Type 0 where
  allow_origin : String → Header
  retry_after : String → Header
  idempotent_replayed : Header
  session_cookie : String → ℤ → Bool → Header

pub data Response (A : Type 0) : Type 0 where
  json : ℕ → A → Response A
  problem : ℕ → ApiError → Response A
  empty : ℕ → Response A

-- the headers that a handler sets, and what it writes
abbrev pub Reply : Type 0 → Type 0
Reply A = List Header × Response A

unfoldable pub write_error : {A : Type 0} → Request → ApiError → Response A
write_error req e =
    problem (if num_eq e.http_status 0 then 500 else e.http_status)
      (record e { request_id = req.request_id })

-- the answer of an operation, written with a status
unfoldable pub respond : {A : Type 0} → ℕ → Request → Answer A → Response A
respond status req (success a) = json status a
respond status req (failure e) = write_error req e

-- `decodeJSONBody`; the decoder gives the first value of the text and whether nothing follows it
unfoldable pub decode_json_body : {T : Type 0} → (String → Option (T × Bool)) → Request → Answer T
decode_json_body decode req = elim req.body [
  | none ↦ failure (invalid "request_too_large" "The request body exceeds 1 MiB." "")
  | some text ↦ elim (decode text) [
    | none ↦ failure (
        invalid "invalid_json"
          "The request body must be a valid JSON object with only supported fields." "")
    | some (input, alone) ↦
        if alone
        then success input
        else failure
            (invalid "invalid_json" "The request body must contain exactly one JSON object." "")
  ]
]

-- the big-endian bytes of a number
abbrev big_endian : ℕ → ℕ → Bytes
big_endian zero n = []
big_endian (suc k) n = big_endian k (n / 256) ++ (n % 256 ∷ [])

abbrev pub request_id_of : ℕ → String
request_id_of n = "req_" <> hex_encode (big_endian 8 n)

abbrev pub is_some {ℓ} : {A : Type ℓ} → Option A → Bool
is_some none = false
is_some (some a) = true

abbrev pub is_named : Option String → Bool
is_named none = false
is_named (some value) = not (value == "")

abbrev pub is_foreign : {S G : Type 0} → Config S G → Request → Bool
is_foreign config req = is_some config.auth && not (req.origin == config.web_origin)

abbrev pub cors_headers : {S G : Type 0} → Config S G → Request → List Header
cors_headers config req = if is_foreign config req then [] else allow_origin config.web_origin ∷ []

-- a request that may change something and has to come from the origin of the application
abbrev pub is_guarded : Request → Bool
is_guarded req =
    not (req.method == "GET")
    && not (req.method == "HEAD")
    && not (has_prefix req.path "/hooks/stripe/")

-- `ServeHTTP`; `mux` is the handler that the routes select, with the state that it works on
unfoldable pub serve_http :
    {S G A X : Type 0}
    → Config S G
    → (Request → X → Reply A × X)
    → Request
    → ℕ
    → X
    → Reply A × X × ℕ
unfolding write_error
serve_http config mux given next_id x =
    let id = (next_id + 1) % 2 ^ 64 in
    let req : Request = record given { request_id = request_id_of id } in
    let ((headers, response), after) = mux req x in
    if req.method == "OPTIONS"
    then if is_foreign config req
      then (
        (
          [],
          write_error req (forbidden "cors_origin_invalid" "The request origin is not allowed."),
        ),
        x,
        id,
      )
      else ((cors_headers config req, empty 204), x, id)
    else if is_foreign config req && is_guarded req && is_named req.cookie
    then (
      ([], write_error req (forbidden "csrf_origin_invalid" "The request origin is not allowed.")),
      x,
      id,
    )
    else ((cors_headers config req ++ headers, response), after, id)
