-- ===== src/Auth/Service/Accounts/SignUp.antt =====
-- From the sign-up to the next login, over the in-memory storage.
use parity_lab.Prelude.{
  ◌++◌, ◌+◌, ◌≤◌, ◌<◌, String, Bytes, true, false, List, All, length, Option, none, some, ◌==◌,
  string_eq, bytes_eq, beq_self, ◌≡◌, refl, ap, arith, ◌||◌,
}
use parity_lab.Prelude.Text.Split.{trim_space, contains}
use parity_lab.Prelude.Table.{lookup}
use parity_lab.Failure.{Try, ok}
use parity_lab.Domain.{Time}
use parity_lab.Secrets.{Cipher, Unseals, encrypt, blind_index, decrypt-encrypt}
use parity_lab.Engine.Records.{StripeConnection}
use parity_lab.Engine.Service.{success}
use parity_lab.Auth.{pos, Registration, SessionView}
use parity_lab.Auth.Memory as Memory
use parity_lab.Auth.Memory.{AuthMemory, auth_memory_repository, identity_of}
use parity_lab.Auth.Memory.Accounts.{register_new}
use parity_lab.Auth.Password.{
  IsPasswordLibrary, hash_password, encoded_hash, derived, verify_password-encoded_hash,
}
use parity_lab.Auth.Service.{
  AuthLibrary, Draws, normalized_email, validate_credentials, random_uuid, registration_of,
  new_session_token, session_ttl, session_view,
}
use parity_lab.Auth.Service.Accounts.{
  register, store_registration, registered_identity, login, check_password, compared_hash,
  start_session, store_session, view_of,
}
use parity_lab.Auth.Service.Accounts.Lifetime.{service}

-- what `Register` asks of a request
pub record IsAcceptable (lib : AuthLibrary) (email password organization project : String)
    : Type 0 where
  pub long_enough : 3 ≤ Prim.Native.String.len (normalized_email lib email)
  pub short_enough : Prim.Native.String.len (normalized_email lib email) ≤ 254
  pub address : contains b'@' (normalized_email lib email) ≡ true
  pub strong : 12 ≤ Prim.Native.String.len password
  pub bounded : Prim.Native.String.len password ≤ 256
  pub named : (trim_space organization == "" || trim_space project == "") ≡ false

validate_credentials-IsAcceptable :
    (lib : AuthLibrary) (email password organization project : String)
    → IsAcceptable lib email password organization project
    → validate_credentials lib email password ≡ success (normalized_email lib email)
unfolding validate_credentials
validate_credentials-IsAcceptable lib email password organization project h =
    ground (arith, h.long_enough, h.short_enough, h.address, h.strong, h.bounded)

abbrev pub uuid_text : Bytes → String
uuid_text bytes = elim (random_uuid (some bytes)) [ none ↦ "" | some id ↦ id ]

-- what a sign-up draws, with no failure
pub record Drawn : Type 0 where
  pub user : Bytes
  pub organization : Bytes
  pub project : Bytes
  pub salt : Bytes
  pub nonce : Bytes
  pub token : Bytes

abbrev pub draws_of : Drawn → Draws
draws_of d = record {
  user = some d.user;
  organization = some d.organization;
  project = some d.project;
  salt = some d.salt;
  nonce = some d.nonce;
  token = some d.token;
}

store_registration_new :
    (lib : AuthLibrary) (list_connections : Option (String → Try (List StripeConnection)))
    (input : Registration) (normalized token : String) (r : AuthMemory)
    → (Memory.register input r).0 ≡ none
    → store_registration lib (input, normalized, token) (auth_memory_repository list_connections) r
      ≡ (
        success (session_view (registered_identity input) normalized, token),
        (Memory.register input r).1,
      )
unfolding store_registration auth_memory_repository
store_registration_new lib list_connections input normalized token r stored =
    rw (stored, store_registration) refl

module _ (lib : AuthLibrary) (list_connections : Option (String → Try (List StripeConnection)))
    (cipher : Cipher) (d : Drawn) (now : Time) (email password organization project : String) where
  abbrev sealed : Bytes
  sealed = d.nonce ++ cipher.aead.seal d.nonce (normalized_email lib email) (uuid_text d.user)

  abbrev signed_up : Registration
  signed_up = record {
    user = record {
      id = uuid_text d.user;
      email_ciphertext = sealed;
      email_hash = blind_index lib.hmac cipher (normalized_email lib email);
      password_hash = encoded_hash lib.passwords d.salt password;
    };
    organization_id = uuid_text d.organization;
    organization_name = trim_space organization;
    project_id = uuid_text d.project;
    project_name = trim_space project;
    retention_days = pos 30;
    session = record {
      token_hash = lib.sha256 (lib.raw_url_encode d.token);
      user_id = uuid_text d.user;
      project_id = uuid_text d.project;
      expires_at = now + session_ttl;
    };
  }

  -- the owner's view of the new account, until an expiry
  abbrev pub owner_view : Time → SessionView
  owner_view expires_at = record {
    authenticated = true;
    user = record { id = uuid_text d.user; email = normalized_email lib email };
    organization = record {
      id = uuid_text d.organization;
      name = trim_space organization;
      role = "owner";
    };
    project = record {
      id = uuid_text d.project;
      name = trim_space project;
      retention_days = pos 30;
    };
    expires_at = expires_at;
  }

  registration_of-signed_up :
      IsAcceptable lib email password organization project
      → registration_of lib (draws_of d) now cipher email password organization project
        ≡ success (signed_up, normalized_email lib email, lib.raw_url_encode d.token)
  unfolding registration_of random_uuid hash_password encrypt new_session_token
  registration_of-signed_up h =
      rw
        (
          validate_credentials-IsAcceptable lib email password organization project h,
          registration_of,
          h.named,
        )
        refl

  -- the storage after the sign-up
  abbrev signed_state : AuthMemory → AuthMemory
  signed_state r = (Memory.register signed_up r).1

  register-signed_up :
      (r : AuthMemory)
      → IsAcceptable lib email password organization project
      → Memory.user_by_email_hash signed_up.user.email_hash r ≡ none
      → register lib
          (draws_of d)
          now
          (service lib list_connections cipher)
          email
          password
          organization
          project
          r
        ≡ (success (owner_view (now + session_ttl), lib.raw_url_encode d.token), signed_state r)
  unfolding register session_view
  register-signed_up r h new =
      rw (register, registration_of-signed_up h)
        (store_registration_new lib list_connections signed_up (normalized_email lib email)
          (lib.raw_url_encode d.token) r (register_new signed_up r new).0)

  signed_up-password :
      (r : AuthMemory)
      → Memory.user_by_email_hash signed_up.user.email_hash r ≡ none
      → IsPasswordLibrary lib.passwords
      → All (λ b. b < 256) d.salt
      → check_password lib (ok (lookup signed_up.user.email_hash (signed_state r).users)) password
        ≡ some (identity_of signed_up)
  unfolding check_password compared_hash Memory.user_by_email_hash
  signed_up-password r new passwords bytes =
      rw
        (
          (register_new signed_up r new).1,
          compared_hash,
          verify_password-encoded_hash lib.passwords d.salt password password passwords bytes,
          beq_self (derived lib.passwords d.salt password),
        )
        refl

  logs_in :
      (raw : Bytes) (t : Time) (r : AuthMemory)
      → Memory.user_by_email_hash signed_up.user.email_hash r ≡ none
      → IsPasswordLibrary lib.passwords
      → Unseals cipher.aead d.nonce (normalized_email lib email) (uuid_text d.user)
      → All (λ b. b < 256) d.salt
      → length d.nonce ≡ cipher.aead.nonce_size
      → (login lib
          (some raw)
          t
          (service lib list_connections cipher)
          email
          password
          (signed_state r)).0
        ≡ success (owner_view (t + session_ttl), lib.raw_url_encode raw)
  unfolding login start_session store_session new_session_token view_of auth_memory_repository
      Memory.user_by_email_hash encrypt session_view
  logs_in raw t r new passwords aead bytes size =
      let read =
        decrypt-encrypt cipher d.nonce (normalized_email lib email) (uuid_text d.user) sealed aead
          size refl in
      rw (signed_up-password r new passwords bytes, login, view_of, read) refl

  -- An acceptable sign-up under a new email succeeds, and the same email and password then log in: with
  -- the same user, organization and project, the fresh token and 24 hours from the login. The
  -- conditions are that the random draws succeed, with bytes and a nonce of the cipher's length,
  -- that the cipher unseals the email that it sealed, that base64 is read back and has no `$`, and that
  -- keys are 32 bytes.
  pub register-login :
      (raw : Bytes) (t : Time) (r : AuthMemory)
      → IsAcceptable lib email password organization project
      → Memory.user_by_email_hash (blind_index lib.hmac cipher (normalized_email lib email)) r
        ≡ none
      → IsPasswordLibrary lib.passwords
      → Unseals cipher.aead d.nonce (normalized_email lib email) (uuid_text d.user)
      → All (λ b. b < 256) d.salt
      → length d.nonce ≡ cipher.aead.nonce_size
      → let (signed, r') =
          register lib
            (draws_of d)
            now
            (service lib list_connections cipher)
            email
            password
            organization
            project
            r in
        (signed ≡ success (owner_view (now + session_ttl), lib.raw_url_encode d.token))
        × ((login lib (some raw) t (service lib list_connections cipher) email password r').0
            ≡ success (owner_view (t + session_ttl), lib.raw_url_encode raw))
  unfolding login
  register-login raw t r h new passwords aead bytes size =
      let done = register-signed_up r h new in
      (ap (λ p. p.0) done, rw done (logs_in raw t r new passwords aead bytes size))
