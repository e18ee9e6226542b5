-- ===== src/Auth/Service/Accounts/Lifetime.antt =====
-- A session over the in-memory storage: from the login that starts it to its expiry or its logout.
use parity_lab.Prelude.{
  String, Bytes, true, List, Option, none, some, string_eq, bytes_eq, eq_iff, ◌≡◌, ◌≢◌, refl, sym,
  ap, ◌∙◌, arith, inl, inr, Option-cases, ◌+◌, ltb, if◌then◌else◌,
}
use parity_lab.Prelude.Table.{lookup, lookup-insert_self}
use parity_lab.Failure.{Try, ok, Try-cases}
use parity_lab.Domain.{Time}
use parity_lab.Secrets.{Cipher, decrypt, blind_index}
use parity_lab.Engine.Records.{Digest, StripeConnection}
use parity_lab.Engine.Service.{success, failure}
use parity_lab.Auth.{IdentityRecord, SessionRecord, SessionView}
use parity_lab.Auth.Memory as Memory
use parity_lab.Auth.Memory.{
  AuthMemory, auth_memory_repository, user_of, create_session, revoke_session,
}
use parity_lab.Auth.Memory.Views.{names, until}
use parity_lab.Auth.Memory.Accounts.{revoke_session_lem}
use parity_lab.Auth.Service.{
  AuthLibrary, Service, new_session_token, session_ttl, session_view, normalized_email,
}
use parity_lab.Auth.Service.Accounts.{
  session_invalid, session_for, view_of, store_session, start_session, check_password,
  compared_hash, login, current_session, session, logout, end_session,
}
use parity_lab.Auth.Service.Accounts.Refusals.{configured}

-- No two accounts share their user and project.
abbrev pub IsUnique : AuthMemory → Type 0
IsUnique r =
    (hash : Digest) (u : IdentityRecord) (s : SessionRecord)
    → lookup hash r.users ≡ some u
    → names s u ≡ true
    → user_of s r.users ≡ some (until s.expires_at u)

session-create_session :
    (s : SessionRecord) (r : AuthMemory)
    → Memory.session s.token_hash (create_session s r) ≡ user_of s r.users
unfolding Memory.session create_session
session-create_session s r = ground (arith, lookup-insert_self s.token_hash s r.sessions)

module _ (lib : AuthLibrary) (list_connections : Option (String → Try (List StripeConnection)))
    (cipher : Cipher) where
  abbrev pub service : Service AuthMemory
  service = configured (auth_memory_repository list_connections) cipher

  -- what a session reads
  session_lem :
      (now : Time) (token : String) (r : AuthMemory)
      → token ≢ ""
      → session lib now service token r
        ≡ current_session now cipher (ok (Memory.session (lib.sha256 token) r))
  unfolding session auth_memory_repository
  session_lem now token r ne = ground (arith, eq_iff token "")

  -- what a logout leaves
  logout_lem :
      (token : String) (r : AuthMemory)
      → token ≢ ""
      → (logout lib service token r).1 ≡ revoke_session (lib.sha256 token) r
  unfolding logout end_session auth_memory_repository
  logout_lem token r ne = elim (Option-cases (Memory.session (lib.sha256 token) r)) [
    | inl missing ↦ ground (arith, eq_iff token "", missing)
    | inr (identity, found) ↦ ground (arith, eq_iff token "", found)
  ]

  -- what a login that succeeded did
  record IsLogin (now : Time) (token : String) (view : SessionView) (r r' : AuthMemory)
      : Type 0 where
    identity : IdentityRecord
    hash : Digest
    email : String
    found : lookup hash r.users ≡ some identity
    stored :
        r' ≡ create_session (session_for (until (now + session_ttl) identity) (lib.sha256 token)) r
    read : decrypt cipher identity.email_ciphertext identity.user_id ≡ ok email
    shown : view ≡ session_view (until (now + session_ttl) identity) email

  abbrev email_hash : String → Digest
  email_hash email = blind_index lib.hmac cipher (normalized_email lib email)

  -- the account whose password was checked is the one that the email finds
  checked-found :
      (hash : Digest) (password : String) (identity : IdentityRecord) (r : AuthMemory)
      → check_password lib (ok (lookup hash r.users)) password ≡ some identity
      → lookup hash r.users ≡ some identity
  unfolding check_password compared_hash
  checked-found hash password identity r e = elim (Option-cases (lookup hash r.users)) [
    | inl missing ↦ ground (arith, missing)
    | inr (known, found) ↦ ground (arith, found)
  ]

  -- a login of a checked account with the bytes of a token
  start-IsLogin :
      (raw : Bytes) (now : Time) (hash : Digest) (identity : IdentityRecord) (r r' : AuthMemory)
      (view : SessionView) (token : String)
      → lookup hash r.users ≡ some identity
      → start_session lib (some raw) now identity (auth_memory_repository list_connections) cipher r
        ≡ (success (view, token), r')
      → IsLogin now token view r r'
  unfolding start_session store_session new_session_token view_of auth_memory_repository
  start-IsLogin raw now hash identity r r' view token found e =
      elim (Try-cases (decrypt cipher identity.email_ciphertext identity.user_id)) [
        | inr (failed, unread) ↦ absurd (ground (arith, unread))
        | inl (email, read) ↦ record {
          identity = identity;
          hash = hash;
          email = email;
          found = found;
          stored = ground (arith, read);
          read = read;
          shown = ground (arith, read);
        }
      ]

  login-IsLogin :
      (drawn : Option Bytes) (now : Time) (email password : String) (r r' : AuthMemory)
      (view : SessionView) (token : String)
      → login lib drawn now service email password r ≡ (success (view, token), r')
      → IsLogin now token view r r'
  unfolding login start_session new_session_token auth_memory_repository Memory.user_by_email_hash
  login-IsLogin none now email password r r' view token e =
      let hash = email_hash email in
      elim (Option-cases (check_password lib (ok (lookup hash r.users)) password)) [
        | inl refused ↦ absurd (ground (arith, refused))
        | inr (identity, checked) ↦ absurd (ground (arith, checked))
      ]
  login-IsLogin (some raw) now email password r r' view token e =
      let hash = email_hash email in
      elim (Option-cases (check_password lib (ok (lookup hash r.users)) password)) [
        | inl refused ↦ absurd (ground (arith, refused))
        | inr (identity, checked) ↦
            start-IsLogin raw now hash identity r r' view token
              (checked-found hash password identity r checked) (rw (checked, login) at e)
      ]

  -- the session that a login leaves in the storage
  login-stored :
      (now : Time) (token : String) (view : SessionView) (r r' : AuthMemory)
      (l : IsLogin now token view r r')
      → IsUnique r
      → Memory.session (lib.sha256 token) r' ≡ some (until (now + session_ttl) l.identity)
  login-stored now token view r r' l unique =
      let u = until (now + session_ttl) l.identity in
      let s = session_for u (lib.sha256 token) in
      ap (Memory.session (lib.sha256 token)) l.stored
      ∙ session-create_session s r
      ∙ unique l.hash l.identity s l.found (
          ground (
            arith,
            eq_iff l.identity.user_id l.identity.user_id,
            eq_iff l.identity.project_id l.identity.project_id,
          ))

  -- The token of a login that succeeded is answered with the login's view until its 24 hours have passed
  -- and is refused from then on; after its logout it is refused at any time, and a token with another
  -- digest is answered as before the logout. The conditions are that the tokens are not empty and
  -- that no two accounts share their user and project.
  pub login-session :
      (drawn : Option Bytes) (now t : Time) (email password : String) (r r' : AuthMemory)
      (view : SessionView) (token other : String)
      → login lib drawn now service email password r ≡ (success (view, token), r')
      → token ≢ ""
      → other ≢ ""
      → lib.sha256 other ≢ lib.sha256 token
      → IsUnique r
      → (session lib t service token r'
          ≡ (if ltb t (now + session_ttl) then success view else failure session_invalid))
        × (session lib t service token (logout lib service token r').1 ≡ failure session_invalid)
        × (session lib t service other (logout lib service token r').1
            ≡ session lib t service other r')
  unfolding current_session
  login-session drawn now t email password r r' view token other e ne other_ne differs unique =
      let l = login-IsLogin drawn now email password r r' view token e in
      let revoked = revoke_session_lem (lib.sha256 token) r' in
      (
        session_lem t token r' ne
            ∙ rw (login-stored now token view r r' l unique, current_session, l.read, l.shown)
                (ground arith),
        ap (session lib t service token) (logout_lem token r' ne)
            ∙ session_lem t token (revoke_session (lib.sha256 token) r') ne
            ∙ rw (revoked.0, current_session) refl,
        ap (session lib t service other) (logout_lem token r' ne)
            ∙ session_lem t other (revoke_session (lib.sha256 token) r') other_ne
            ∙ ap (λ o. current_session t cipher (ok o)) (revoked.1 (lib.sha256 other) differs)
            ∙ sym (session_lem t other r' other_ne),
      )
