-- ===== src/Http/Logins/Throttled.antt =====
-- Wrong passwords are guessed eight times in five minutes at most.
use parity_lab.Prelude.{ℕ, String, Bytes, Bool, List, [], ◌∷◌, Option, string_eq, ◌≡◌}
use parity_lab.Prelude.Text.{◌<>◌}
use parity_lab.Auth.{SessionView}
use parity_lab.Domain.{Time}
use parity_lab.Engine.Service.{success, failure}
use parity_lab.Auth.Service.{AuthLibrary, Service, normalized_email}
use parity_lab.Auth.Service.Accounts.{login, invalid_credentials, login_throttle_key}
use parity_lab.Http.Limiter.{LoginLimiter, format_retry_after}
use parity_lab.Http.Requests.{Config, Request, Reply, retry_after, write_error, decode_json_body}
use parity_lab.Http.Logins.{
  LoginRequest, rate_limit_exceeded, retry_seconds, client_address, login_handler,
}

-- a request as it comes: its time, and the token that would be drawn for it
pub record Visit : Type 0 where
  pub at : Time
  pub drawn : Option Bytes
  pub req : Request

module _ {S G : Type 0} (lib : AuthLibrary) (config : Config S G)
    (split_host_port : String → Option String)
    (decode : String → Option (LoginRequest × Bool)) where
  abbrev handle : Visit → LoginLimiter → S → Reply SessionView × LoginLimiter × S
  handle v l s = login_handler lib config split_host_port decode v.drawn v.at v.req l s

  -- the limiter and the accounts after some requests
  abbrev pub after_logins : List Visit → LoginLimiter → S → LoginLimiter × S
  after_logins [] l s = (l, s)
  after_logins (v ∷ visits) l s =
      let (reply, limiter, accounts) = handle v l s in after_logins visits limiter accounts

  module _ (auth : Service S) (s : S) (address email : String) where
    -- a request from the address for the email, written in any way that is normalized alike
    pub record IsTry (v : Visit) (input : LoginRequest) : Type 0 where
      pub decoded : decode_json_body decode v.req ≡ success input
      pub sender : client_address split_host_port v.req ≡ address
      pub account : normalized_email lib input.email ≡ normalized_email lib email

    -- such a request with a password that is wrong
    pub record IsGuess (v : Visit) : Type 0 where
      pub input : LoginRequest
      pub tries : IsTry v input
      pub refused :
          login lib v.drawn v.at auth input.email input.password s
          ≡ (failure invalid_credentials, s)

    abbrev key : String
    key = address <> ":" <> login_throttle_key lib auth email

    -- the answer to a login while so much time is left
    abbrev pub IsThrottled : Visit → ℕ → LoginLimiter × S → Type 0
    IsThrottled v left state =
        let out =
          login_handler lib config split_host_port decode v.drawn v.at v.req state.0 state.1 in
        (out.0 ≡ (
          retry_after (format_retry_after (retry_seconds left)) ∷ [],
          write_error v.req rate_limit_exceeded,
        ))
        × (out.2 ≡ s)
