-- ===== src/Tests/Auth.antt =====
-- Accounts, sessions and projects.
use parity_lab.Prelude.{
  ℕ, zero, suc, ◌+◌, ◌%◌, ◌<◌, String, Bytes, List, [], ◌∷◌, All, length, Option, none, some, ltb,
  ◌==◌, string_eq, bytes_eq, if◌then◌else◌, ◌≡◌, ◌≢◌, ◌⊎◌, refl, arith, eq_iff, ap,
}
use parity_lab.Prelude.Hex.{hex_encode, hex_decode, hex_decode-hex_encode, contains-hex_encode}
use parity_lab.Prelude.Table.{lookup}
use parity_lab.Prelude.Text.Split.{contains, trim_space, split, cut, parse_uint}
use parity_lab.Failure.{Try, account_exists}
use parity_lab.Secrets.{Aead, Cipher, ascii_bytes, blind_index, decrypt}
use parity_lab.Engine.Service.{Answer, success, failure}
use parity_lab.Engine.Records.{StripeConnection}
use parity_lab.Auth.{pos, IdentityRecord, Registration, SessionView}
use parity_lab.Auth.Memory as Memory
use parity_lab.Auth.Memory.{
  AuthMemory, new_auth_memory, auth_memory_repository, first_environments, user_of,
}
use parity_lab.Auth.Memory.Views.{until}
use parity_lab.Auth.Memory.Steps.{
  Reach, here, next, registers, selects, IsConsistent, new-IsConsistent, Reach-IsConsistent,
}
use parity_lab.Auth.Memory.Accounts.{IsFresh, IsRegistered, register_lem}
use parity_lab.Auth.Password.{encoded_hash, verify_password, PasswordLibrary, IsPasswordLibrary}
use parity_lab.Auth.Service.{AuthLibrary, Service, session_ttl, session_view}
use parity_lab.Auth.Service.Accounts.{
  register, login, session, logout, found_account, invalid_credentials, session_invalid,
}
use parity_lab.Auth.Service.Accounts.Refusals.{configured, Grants, login-invalid_credentials}
use parity_lab.Auth.Service.Accounts.Lifetime.{service, IsUnique, login-session}
use parity_lab.Auth.Service.Accounts.SignUp.{
  Drawn, draws_of, owner_view, IsAcceptable, register-login,
}
use parity_lab.Auth.Service.Projects.{update_project}
use parity_lab.Auth.Service.Projects.Retention.{IsRetained, update_project-IsRetained}
use parity_lab.Tests.Data.{test_sha256}

abbrev repeat : ℕ → ℕ → Bytes
repeat zero b = []
repeat (suc n) b = b ∷ repeat n b

abbrev test_passwords : PasswordLibrary
test_passwords = record {
  argon2_id_key = λ password salt t m p n. repeat n (Prim.Native.String.len password % 256);
  raw_std_encode = hex_encode;
  raw_std_decode = hex_decode;
}

length-repeat : (n b : ℕ) → length (repeat n b) ≡ n
length-repeat zero b = refl
length-repeat (suc n) b = ap (λ m. suc m) (length-repeat n b)

repeat_bytes : (n b : ℕ) → b < 256 → All (λ b. b < 256) (repeat n b)
repeat_bytes zero b h = tt
repeat_bytes (suc n) b h = (h, repeat_bytes n b h)

test_passwords-IsPasswordLibrary : IsPasswordLibrary test_passwords
test_passwords-IsPasswordLibrary = record {
  decode-encode = hex_decode-hex_encode;
  plain_text = contains-hex_encode;
  key_length = λ password salt t m p n. length-repeat n _;
  key_bytes = λ password salt t m p n. repeat_bytes n _ (omega arith);
}

abbrev pub test_library : AuthLibrary
test_library = record {
  passwords = test_passwords;
  sha256 = test_sha256;
  hmac = λ key text. test_sha256 text;
  raw_url_encode = hex_encode;
  to_lower = λ text. text;
  dummy_salt = [];
}

abbrev pub address : String
address = "ana@shop.test"

-- an AEAD that unseals one text
abbrev test_aead : Aead
test_aead = record {
  nonce_size = 2;
  seal = λ nonce plaintext associated. ascii_bytes plaintext;
  unseal =
      λ nonce payload associated. if payload == ascii_bytes address then some address else none;
}

abbrev pub test_cipher : Cipher
test_cipher = record { aead = test_aead; index_key = [] }

abbrev lister : Option (String → Try (List StripeConnection))
lister = none

abbrev drawn : Drawn
drawn = record {
  user = repeat 16 1;
  organization = repeat 16 2;
  project = repeat 16 3;
  salt = repeat 16 4;
  nonce = repeat 2 5;
  token = repeat 32 6;
}

abbrev word : String
word = "correct horse"

acceptable : IsAcceptable test_library address word "Shop" "Checkout"
unfolding contains trim_space
acceptable = record {
  long_enough = omega arith;
  short_enough = omega arith;
  address = refl;
  strong = omega arith;
  bounded = omega arith;
  named = refl;
}

no_account : Memory.user_by_email_hash (test_sha256 address) new_auth_memory ≡ none
unfolding Memory.user_by_email_hash new_auth_memory lookup
no_account = refl

register-login_example :
    let (signed, r') =
      register test_library
        (draws_of drawn)
        100
        (service test_library lister test_cipher)
        address
        word
        "Shop"
        "Checkout"
        new_auth_memory in
    (signed
      ≡ success (
        owner_view test_library lister test_cipher drawn 100 address word "Shop" "Checkout"
            (100 + session_ttl),
        hex_encode (repeat 32 6),
      ))
    × ((login test_library
          (some (repeat 3 7))
          900
          (service test_library lister test_cipher)
          address
          word
          r').0
        ≡ success (
          owner_view test_library lister test_cipher drawn 100 address word "Shop" "Checkout"
              (900 + session_ttl),
          hex_encode (repeat 3 7),
        ))
unfolding blind_index trim_space
register-login_example =
    register-login test_library lister test_cipher drawn 100 address word "Shop" "Checkout"
      (repeat 3 7) 900 new_auth_memory acceptable no_account test_passwords-IsPasswordLibrary refl
      (omega arith) refl

-- an account with a project
abbrev ana : IdentityRecord
ana = record {
  user_id = "u";
  email_ciphertext = 5 ∷ 5 ∷ ascii_bytes address;
  password_hash = encoded_hash test_passwords (4 ∷ []) word;
  organization_id = "o";
  organization_name = "Shop";
  role = "owner";
  project_id = "p";
  project_name = "Checkout";
  retention_days = pos 30;
  session_expires_at = 0;
}

abbrev pub one_account : AuthMemory
one_account = record {
  users = (test_sha256 address, ana) ∷ [];
  sessions = [];
  projects = ("p", record { id = "p"; name = "Checkout"; retention_days = pos 30 }) ∷ [];
  environments = ("p", first_environments "p") ∷ [];
  findings = [];
  notifications = [];
}

abbrev pub test_service : Service AuthMemory
test_service = service test_library lister test_cipher

abbrev pub token : String
token = hex_encode (7 ∷ [])

abbrev pub ana_view : SessionView
ana_view = session_view (until (900 + session_ttl) ana) address

abbrev pub logged_in : Answer (SessionView × String) × AuthMemory
logged_in = login test_library (some (7 ∷ [])) 900 test_service address word one_account

logged_in_run : logged_in ≡ (success (ana_view, token), logged_in.1)
unfolding login auth_memory_repository lookup blind_index trim_space verify_password split
    hex_encode cut parse_uint hex_decode decrypt
logged_in_run = refl

token_named : token ≢ ""
unfolding hex_encode
token_named = ground (arith, eq_iff token "")

other_digest : test_sha256 "another" ≢ test_sha256 token
unfolding hex_encode
other_digest = ground arith

one_account-IsUnique : IsUnique one_account
unfolding lookup user_of
one_account-IsUnique hash u s e named = ground arith

login-session_example :
    (session test_library 1000 test_service token logged_in.1
      ≡ (if ltb 1000 (900 + session_ttl) then success ana_view else failure session_invalid))
    × (session test_library 1000 test_service token
          (logout test_library test_service token logged_in.1).1
        ≡ failure session_invalid)
    × (session test_library 1000 test_service "another"
          (logout test_library test_service token logged_in.1).1
        ≡ session test_library 1000 test_service "another" logged_in.1)
login-session_example =
    login-session test_library lister test_cipher (some (7 ∷ [])) 900 1000 address word one_account
      logged_in.1 ana_view token "another" logged_in_run token_named
      (ground (arith, eq_iff "another" "")) other_digest one_account-IsUnique

abbrev pub wrong_password : String
wrong_password = "wrong"

login-invalid_credentials_example :
    (¬ Grants test_library
        (found_account test_library (auth_memory_repository lister) test_cipher address one_account)
        wrong_password
      × (login test_library
            (some (7 ∷ []))
            900
            (configured (auth_memory_repository lister) test_cipher)
            address
            wrong_password
            one_account
          ≡ (failure invalid_credentials, one_account)))
    ⊎ (Grants test_library
          (found_account test_library
            (auth_memory_repository lister)
            test_cipher
            address
            one_account)
          wrong_password
        × ((login test_library
              (some (7 ∷ []))
              900
              (configured (auth_memory_repository lister) test_cipher)
              address
              wrong_password
              one_account).0
            ≢ failure invalid_credentials))
login-invalid_credentials_example =
    login-invalid_credentials test_library (auth_memory_repository lister) test_cipher
      (some (7 ∷ [])) 900 address wrong_password one_account

one_account-IsRetained : IsRetained one_account
unfolding lookup
one_account-IsRetained = record { within = λ id v e. ground arith }

update_project-IsRetained_example :
    IsRetained
      (update_project (auth_memory_repository lister) ana_view "Store" (pos 365) one_account).1
update_project-IsRetained_example =
    update_project-IsRetained lister ana_view "Store" (pos 365) one_account one_account-IsRetained

abbrev request : Registration
request = record {
  user = record { id = "v"; email_ciphertext = []; email_hash = 1 ∷ []; password_hash = "" };
  organization_id = "q";
  organization_name = "Other";
  project_id = "r";
  project_name = "Second";
  retention_days = pos 30;
  session = record { token_hash = 2 ∷ []; user_id = "v"; project_id = "r"; expires_at = 50 };
}

request-IsFresh : IsFresh request one_account
unfolding lookup user_of
request-IsFresh = record { user = refl; sessions = λ hash s e. ground arith }

register_lem_example :
    ((Memory.user_by_email_hash (1 ∷ []) one_account ≢ none)
      × (Memory.register request one_account ≡ (some account_exists, one_account)))
    ⊎ ((Memory.user_by_email_hash (1 ∷ []) one_account ≡ none)
        × ((Memory.register request one_account).0 ≡ none)
        × IsRegistered request one_account (Memory.register request one_account).1)
register_lem_example = register_lem request one_account request-IsFresh refl

abbrev after_steps : AuthMemory
after_steps =
    (Memory.select_environment "r" "r:local" (Memory.register request new_auth_memory).1).1

after_steps-Reach : Reach new_auth_memory after_steps
unfolding new_auth_memory lookup
after_steps-Reach = next (next here (registers request refl)) (selects "r" "r:local")

Reach-IsConsistent_example : IsConsistent after_steps
Reach-IsConsistent_example = Reach-IsConsistent new-IsConsistent after_steps-Reach
