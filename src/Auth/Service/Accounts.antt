-- ===== src/Auth/Service/Accounts.antt =====
-- auth/service.go: the sign-up, the login, the session of a token and the logout.
pub mod Refusals
pub mod Lifetime
pub mod SignUp
use parity_lab.Prelude.{
  ◌+◌, String, Bytes, Bool, true, false, List, [], Option, none, some, ltb, ◌==◌, string_eq,
  if◌then◌else◌, ◌&&◌, ◌||◌, not,
}
use parity_lab.Failure.{
  Failure, Try, ok, err, idempotency_conflict, webhook_conflict, account_exists, permanent, message,
}
use parity_lab.Domain.{Time}
use parity_lab.Domain.Errors.{ApiError, conflict, internal, unauthorized}
use parity_lab.Secrets.{Cipher, blind_index, decrypt}
use parity_lab.Engine.Records.{Digest}
use parity_lab.Engine.Service.{Answer, success, failure}
use parity_lab.Auth.{ℤ, pos, SessionRecord, Registration, IdentityRecord, SessionView, Repository}
use parity_lab.Auth.Password.{verify_password, dummy_password_hash}
use parity_lab.Auth.Service.{
  AuthLibrary, Service, Draws, registration_of, new_session_token, session_view, unavailable,
  session_ttl, normalized_email,
}

abbrev pub invalid_credentials : ApiError
invalid_credentials = unauthorized "invalid_credentials" "The email or password is incorrect."

abbrev pub session_required : ApiError
session_required = unauthorized "session_required" "Authentication is required."

abbrev pub session_invalid : ApiError
session_invalid = unauthorized "session_invalid" "The session is invalid or expired."

-- the answer to an error of the storage
unfoldable pub registration_error : Failure → ApiError
registration_error account_exists =
    conflict "account_exists" "An account with this email already exists." "email"
registration_error idempotency_conflict =
    internal "registration_persistence_failed" "The account could not be stored."
registration_error webhook_conflict =
    internal "registration_persistence_failed" "The account could not be stored."
registration_error (permanent code) =
    internal "registration_persistence_failed" "The account could not be stored."
registration_error (message text) =
    internal "registration_persistence_failed" "The account could not be stored."

abbrev pub registered_identity : Registration → IdentityRecord
registered_identity input = record {
  user_id = input.user.id;
  email_ciphertext = input.user.email_ciphertext;
  password_hash = "";
  organization_id = input.organization_id;
  organization_name = input.organization_name;
  role = "owner";
  project_id = input.project_id;
  project_name = input.project_name;
  retention_days = pos 30;
  session_expires_at = input.session.expires_at;
}

-- the stored session of a login: the identity with its expiry, and the token's digest
abbrev pub session_for : IdentityRecord → Digest → SessionRecord
session_for identity token_hash = record {
  token_hash = token_hash;
  user_id = identity.user_id;
  project_id = identity.project_id;
  expires_at = identity.session_expires_at;
}

-- the last part of `Login`
unfoldable pub view_of : Cipher → IdentityRecord → String → Answer (SessionView × String)
unfolding session_view
view_of cipher identity token = elim (decrypt cipher identity.email_ciphertext identity.user_id) [
  | err e ↦ failure (internal "identity_decryption_failed" "The account could not be loaded.")
  | ok email ↦ success (session_view identity email, token)
]

-- the part of `Session` after the lookup
unfoldable pub current_session : Time → Cipher → Try (Option IdentityRecord) → Answer SessionView
unfolding session_view
current_session now cipher (err e) = failure session_invalid
current_session now cipher (ok none) = failure session_invalid
current_session now cipher (ok (some identity)) =
    if not (ltb now identity.session_expires_at)
    then failure session_invalid
    else (elim (decrypt cipher identity.email_ciphertext identity.user_id) [
      | err e ↦ failure session_invalid
      | ok email ↦ success (session_view identity email)
    ])

module _ (lib : AuthLibrary) where
  -- the hash that a password is compared with, which is a dummy where there is no account
  unfoldable pub compared_hash : Try (Option IdentityRecord) → String
  compared_hash (err e) = dummy_password_hash lib.passwords lib.dummy_salt
  compared_hash (ok none) = dummy_password_hash lib.passwords lib.dummy_salt
  compared_hash (ok (some identity)) = identity.password_hash

  unfoldable pub check_password : Try (Option IdentityRecord) → String → Option IdentityRecord
  unfolding compared_hash
  check_password found password =
      let password_valid = verify_password lib.passwords (compared_hash found) password in
      elim found [
        | err e ↦ none
        | ok o ↦ elim o [
          | none ↦ none
          | some identity ↦ if password_valid then some identity else none
        ]
      ]

module _ {S : Type 0} (lib : AuthLibrary) where
  -- the part of `Register` that stores
  unfoldable pub store_registration :
      Registration × String × String → Repository S → S → Answer (SessionView × String) × S
  unfolding registration_error session_view
  store_registration (registration, normalized, token) repo s =
      let (problem, stored) = repo.register registration s in
      elim problem [
        | some e ↦ (failure (registration_error e), stored)
        | none ↦
            (success (session_view (registered_identity registration) normalized, token), stored)
      ]

  unfoldable pub register :
      Draws
      → Time
      → Service S
      → String
      → String
      → String
      → String
      → S
      → Answer (SessionView × String) × S
  unfolding unavailable registration_of store_registration
  register draws now service email password organization_name project_name s = elim service.repo [
    | none ↦ (failure unavailable, s)
    | some repo ↦ elim service.cipher [
      | none ↦ (failure unavailable, s)
      | some cipher ↦
          elim (registration_of lib draws now cipher email password organization_name
            project_name) [
              | failure e ↦ (failure e, s)
              | success registration ↦ store_registration registration repo s
            ]
    ]
  ]

  abbrev pub login_audit : Repository S → IdentityRecord → S → Option Failure × S
  login_audit repo identity s =
      repo.record_audit identity.project_id identity.user_id "auth.login" "session" "current" [] s

  -- the part of `Login` that stores
  unfoldable pub store_session :
      IdentityRecord
      → String
      → Digest
      → Repository S
      → Cipher
      → S
      → Answer (SessionView × String) × S
  unfolding view_of
  store_session identity token token_hash repo cipher s =
      let (problem, stored) = repo.create_session (session_for identity token_hash) s in
      elim problem [
        | some e ↦ (
          failure (internal "session_persistence_failed" "The session could not be stored."),
          stored,
        )
        | none ↦
            let (unaudited, audited) = login_audit repo identity stored in
            elim unaudited [
              | some e ↦ (
                failure (internal "audit_persistence_failed" "The session could not be stored."),
                (repo.revoke_session token_hash audited).1,
              )
              | none ↦ (view_of cipher identity token, audited)
            ]
      ]

  -- the part of `Login` after the password
  unfoldable pub start_session :
      Option Bytes
      → Time
      → IdentityRecord
      → Repository S
      → Cipher
      → S
      → Answer (SessionView × String) × S
  unfolding new_session_token store_session
  start_session drawn now identity repo cipher s = elim (new_session_token lib drawn) [
    | none ↦ (failure (internal "session_creation_failed" "The session could not be created."), s)
    | some (token, token_hash) ↦
        store_session (record identity { session_expires_at = now + session_ttl }) token token_hash
          repo cipher s
  ]

  -- the account that an email finds, or the error of the lookup
  abbrev pub found_account : Repository S → Cipher → String → S → Try (Option IdentityRecord)
  found_account repo cipher email s =
      repo.user_by_email_hash (blind_index lib.hmac cipher (normalized_email lib email)) s

  unfoldable pub login :
      Option Bytes → Time → Service S → String → String → S → Answer (SessionView × String) × S
  unfolding unavailable check_password start_session
  login drawn now service email password s = elim service.repo [
    | none ↦ (failure unavailable, s)
    | some repo ↦ elim service.cipher [
      | none ↦ (failure unavailable, s)
      | some cipher ↦ elim (check_password lib (found_account repo cipher email s) password) [
        | none ↦ (failure invalid_credentials, s)
        | some identity ↦ start_session drawn now identity repo cipher s
      ]
    ]
  ]

  unfoldable pub session : Time → Service S → String → S → Answer SessionView
  unfolding current_session
  session now service token s = elim service.repo [
    | none ↦ failure session_required
    | some repo ↦ elim service.cipher [
      | none ↦ failure session_required
      | some cipher ↦
          if token == ""
          then failure session_required
          else current_session now cipher (repo.session (lib.sha256 token) s)
    ]
  ]

  -- the part of `Logout` after the lookup: an error of the lookup has no identity
  unfoldable pub end_session :
      Try (Option IdentityRecord) → Digest → Repository S → S → Option Failure × S
  end_session found hash repo s =
      let (problem, revoked) = repo.revoke_session hash s in
      elim problem [
        | some e ↦ (some e, revoked)
        | none ↦ elim found [
          | err e ↦ (none, revoked)
          | ok o ↦ elim o [
            | none ↦ (none, revoked)
            | some identity ↦
                repo.record_audit identity.project_id identity.user_id "auth.logout" "session"
                  "current" [] revoked
          ]
        ]
      ]

  unfoldable pub logout : Service S → String → S → Option Failure × S
  unfolding end_session
  logout service token s = elim service.repo [
    | none ↦ (none, s)
    | some repo ↦
        if token == ""
        then (none, s)
        else end_session (repo.session (lib.sha256 token) s) (lib.sha256 token) repo s
  ]

  unfoldable pub login_throttle_key : Service S → String → String
  login_throttle_key service email = elim service.cipher [
    | none ↦ ""
    | some cipher ↦ lib.raw_url_encode (blind_index lib.hmac cipher (normalized_email lib email))
  ]
