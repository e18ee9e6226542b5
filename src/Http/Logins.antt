-- ===== src/Http/Logins.antt =====
-- httpapi/auth_routes.go: the handlers of accounts. `split_host_port` is the `net` package's, and gives the
-- host of an address. An input is what the decoder makes of the body.
pub mod Throttled
use parity_lab.Prelude.{
  ℕ, ◌+◌, ◌/◌, String, Bytes, Bool, true, false, List, [], ◌∷◌, Option, none, some, ltb,
  if◌then◌else◌, not,
}
use parity_lab.Prelude.Text.{◌<>◌}
use parity_lab.Prelude.Text.Numerals.{ℤ, pos, negsuc}
use parity_lab.Failure.{Failure}
use parity_lab.Domain.{Time, Duration, second}
use parity_lab.Domain.Errors.{ApiError, api_error, internal}
use parity_lab.Engine.Service.{Answer, success, failure}
use parity_lab.Auth.{SessionView}
use parity_lab.Auth.Service.{AuthLibrary, Service, Draws, session_ttl}
use parity_lab.Auth.Service.Accounts.{register, login, logout, login_throttle_key}
use parity_lab.Http.Requests.{
  Config, Request, Header, retry_after, session_cookie, Response, json, empty, Reply, write_error,
  respond, decode_json_body,
}
use parity_lab.Http.Reads.{require_session}
use parity_lab.Http.Limiter.{LoginLimiter, limited, format_retry_after}
use parity_lab.Http.Limiter as Limiter

pub record RegisterRequest : Type 0 where
  pub email : String
  pub password : String
  pub workspace_name : String
  pub project_name : String

pub record LoginRequest : Type 0 where
  pub email : String
  pub password : String

abbrev pub auth_not_configured : ApiError
auth_not_configured =
    api_error "api_error" "auth_not_configured" "Authentication is not configured." "" 503

abbrev pub rate_limit_exceeded : ApiError
rate_limit_exceeded =
    api_error "rate_limit_error" "rate_limit_exceeded" "Too many sign-in attempts. Try again later."
      "" 429

abbrev pub set_session_cookie : {S G : Type 0} → Config S G → String → Duration → Header
set_session_cookie config token ttl =
    session_cookie token (pos (ttl / second)) (not config.insecure_cookies)

abbrev pub clear_session_cookie : {S G : Type 0} → Config S G → Header
clear_session_cookie config = session_cookie "" (negsuc 0) (not config.insecure_cookies)

-- `retry.Round(time.Second).Seconds()`, and one second at least
abbrev pub retry_seconds : Duration → ℕ
retry_seconds retry =
    let seconds = (retry + second / 2) / second in if ltb seconds 1 then 1 else seconds

-- what a granted session is answered with
abbrev pub opened :
    {S G : Type 0} → Config S G → Request → ℕ → Answer (SessionView × String) → Reply SessionView
opened config req status (success (view, token)) =
    (set_session_cookie config token session_ttl ∷ [], json status view)
opened config req status (failure e) = ([], write_error req e)

abbrev pub client_address : (String → Option String) → Request → String
client_address split_host_port req = elim (split_host_port req.remote_address) [
  | none ↦ req.remote_address
  | some host ↦ host
]

-- the limiter after the answer of a login
abbrev pub settled : Time → String → LoginLimiter → Answer (SessionView × String) → LoginLimiter
settled now key limiter (success granted) = Limiter.success key limiter
settled now key limiter (failure e) = Limiter.failure now key limiter

module _ {S G : Type 0} (lib : AuthLibrary) (config : Config S G) where
  unfoldable pub register_handler :
      (String → Option (RegisterRequest × Bool))
      → Draws
      → Time
      → Request
      → S
      → Reply SessionView × S
  unfolding write_error decode_json_body
  register_handler decode draws now req s = elim config.auth [
    | none ↦ (([], write_error req auth_not_configured), s)
    | some auth ↦ elim (decode_json_body decode req) [
      | failure e ↦ (([], write_error req e), s)
      | success input ↦
          let (answer, after) =
            register lib draws now auth input.email input.password input.workspace_name
              input.project_name s in
          (opened config req 201 answer, after)
    ]
  ]

  -- the part of `login` behind the limiter
  unfoldable pub attempt :
      Option Bytes
      → Time
      → Request
      → Service S
      → LoginRequest
      → String
      → LoginLimiter
      → S
      → Reply SessionView × LoginLimiter × S
  attempt drawn now req auth input key limiter s =
      let (answer, after) = login lib drawn now auth input.email input.password s in
      (opened config req 200 answer, settled now key limiter answer, after)

  abbrev pub throttle_key : (String → Option String) → Request → Service S → LoginRequest → String
  throttle_key split_host_port req auth input =
      client_address split_host_port req <> ":" <> login_throttle_key lib auth input.email

  -- the part of `login` with the input
  unfoldable pub limited_login :
      (String → Option String)
      → Option Bytes
      → Time
      → Request
      → Service S
      → LoginRequest
      → LoginLimiter
      → S
      → Reply SessionView × LoginLimiter × S
  unfolding attempt
  limited_login split_host_port drawn now req auth input limiter s =
      let key = throttle_key split_host_port req auth input in
      let ((refused, retry), checked) = limited now key limiter in
      if refused
      then (
        (
          retry_after (format_retry_after (retry_seconds retry)) ∷ [],
          write_error req rate_limit_exceeded,
        ),
        checked,
        s,
      )
      else attempt drawn now req auth input key checked s

  unfoldable pub login_handler :
      (String → Option String)
      → (String → Option (LoginRequest × Bool))
      → Option Bytes
      → Time
      → Request
      → LoginLimiter
      → S
      → Reply SessionView × LoginLimiter × S
  unfolding limited_login decode_json_body
  login_handler split_host_port decode drawn now req limiter s = elim config.auth [
    | none ↦ (([], write_error req auth_not_configured), limiter, s)
    | some auth ↦ elim (decode_json_body decode req) [
      | failure e ↦ (([], write_error req e), limiter, s)
      | success input ↦ limited_login split_host_port drawn now req auth input limiter s
    ]
  ]

  -- the answer to a logout
  abbrev pub logged_out : Request → Option Failure → Reply (Unit {0})
  logged_out req none = (clear_session_cookie config ∷ [], empty 204)
  logged_out req (some e) =
      ([], write_error req (internal "logout_failed" "The session could not be revoked."))

  unfoldable pub logout_handler : Request → S → Reply (Unit {0}) × S
  logout_handler req s = elim config.auth [
    | none ↦ (([], write_error req auth_not_configured), s)
    | some auth ↦ elim req.cookie [
      | none ↦ (logged_out req none, s)
      | some token ↦ let (result, after) = logout lib auth token s in (logged_out req result, after)
    ]
  ]

  -- `session`, which writes nothing where there are no accounts
  unfoldable pub session_handler : Time → Request → S → Response SessionView
  session_handler now req s = elim config.auth [
    | none ↦ empty 200
    | some auth ↦ respond 200 req (require_session lib now auth req s)
  ]
