-- ===== src/Http/Requests/Gate.antt =====
-- The check of a request's origin.
use parity_lab.Prelude.{
  ℕ, String, true, [], some, string_eq, ◌==◌, ◌≡◌, ◌≢◌, refl, arith, ◌⊎◌, inl, inr, eq_iff,
  Bool-cases,
}
use parity_lab.Domain.Errors.{ApiError, forbidden}
use parity_lab.Engine.Service.Ingress.{has_prefix}
use parity_lab.Auth.Service.{Service}
use parity_lab.Http.Requests.{
  Config, Request, Reply, is_guarded, is_foreign, is_named, serve_http, problem, write_error,
}

-- what is not the answer of a handler: an error that no other origin may read
abbrev pub IsStopped : {A : Type 0} → Reply A → Type 0
IsStopped reply = (reply.0 ≡ []) × ((e : ApiError) × (reply.1 ≡ problem 403 e))

-- A request from another origin than the application's that carries a session cookie, where there are
-- accounts, changes nothing and is answered 403 with no permission for the origin, unless it is a `GET` or
-- `HEAD` request or goes to the webhooks.
pub serve_http-forged :
    {S G A X : Type 0} (config : Config S G) (auth : Service S) (mux : Request → X → Reply A × X)
    (req : Request) (token : String) (next_id : ℕ) (x : X)
    → config.auth ≡ some auth
    → req.origin ≢ config.web_origin
    → req.cookie ≡ some token
    → token ≢ ""
    → (((serve_http config mux req next_id x).1 ≡ x)
        × IsStopped (serve_http config mux req next_id x).0)
      ⊎ ((req.method ≡ "GET")
          ⊎ ((req.method ≡ "HEAD") ⊎ (has_prefix req.path "/hooks/stripe/" ≡ true)))
unfolding serve_http write_error forbidden
serve_http-forged config auth mux req token next_id x accounts foreign carried named =
    let outside : is_foreign config req ≡ true =
      ground (arith, accounts, eq_iff req.origin config.web_origin) in
    elim (Bool-cases (req.method == "OPTIONS")) [
      | inl asks ↦ inl (rw (asks, outside, serve_http) (refl, (refl, (_, refl))))
      | inr acts ↦ elim (Bool-cases (is_guarded req)) [
        | inr open_ ↦ inr (ground (arith, open_, eq_iff req.method "GET", eq_iff req.method "HEAD"))
        | inl guarded ↦
            let held : is_named req.cookie ≡ true = ground (arith, carried, eq_iff token "") in
            inl (rw (acts, outside, guarded, held, serve_http) (refl, (refl, (_, refl))))
      ]
    ]
