-- ===== src/Auth/Service/Accounts/Refusals.antt =====
-- A login tells nothing about the accounts that exist.
use parity_lab.Prelude.{
  String, Bytes, true, false, Option, none, some, string_eq, ◌≡◌, ◌≢◌, ◌⊎◌, refl, sym, ap, ◌∙◌,
  arith, inl, inr, Option-cases, Bool-cases, ℕ, ◌+◌,
}
use parity_lab.Failure.{Failure, Try, ok, err, Try-cases}
use parity_lab.Domain.{Time}
use parity_lab.Domain.Errors.{unauthorized, internal}
use parity_lab.Secrets.{Cipher, decrypt}
use parity_lab.Engine.Records.{Digest}
use parity_lab.Engine.Service.{Answer, success, failure}
use parity_lab.Auth.{IdentityRecord, Repository}
use parity_lab.Auth.Password.{verify_password}
use parity_lab.Auth.Service.{AuthLibrary, Service, new_session_token, session_ttl}
use parity_lab.Auth.Service.Accounts.{
  invalid_credentials, session_for, view_of, login_audit, store_session, start_session,
  found_account, compared_hash, check_password, login,
}

abbrev pub configured : {S : Type 0} → Repository S → Cipher → Service S
configured repo cipher = record { repo = some repo; cipher = some cipher }

-- an account was found and the password is its password
pub record Grants (lib : AuthLibrary) (found : Try (Option IdentityRecord)) (password : String)
    : Type 0 where
  pub identity : IdentityRecord
  pub stored : found ≡ ok (some identity)
  pub valid : verify_password lib.passwords identity.password_hash password ≡ true

failed-Grants :
    (lib : AuthLibrary) (e : Failure) (password : String) → ¬ Grants lib (err e) password
failed-Grants lib e password g = absurd (ground (arith, g.stored))

missing-Grants : (lib : AuthLibrary) (password : String) → ¬ Grants lib (ok none) password
missing-Grants lib password g = absurd (ground (arith, g.stored))

wrong-Grants :
    (lib : AuthLibrary) (known : IdentityRecord) (password : String)
    → verify_password lib.passwords known.password_hash password ≡ false
    → ¬ Grants lib (ok (some known)) password
wrong-Grants lib known password wrong g = absurd (ground (arith, wrong, g.stored, g.valid))

-- either way, and what the check answers
Grants-cases :
    (lib : AuthLibrary) (found : Try (Option IdentityRecord)) (password : String)
    → (Grants lib found password
        × ((identity : IdentityRecord) × (check_password lib found password ≡ some identity)))
      ⊎ (¬ Grants lib found password × (check_password lib found password ≡ none))
unfolding check_password compared_hash
Grants-cases lib (err e) password = inr (failed-Grants lib e password, refl)
Grants-cases lib (ok none) password = inr (missing-Grants lib password, refl)
Grants-cases lib (ok (some known)) password =
    elim (Bool-cases (verify_password lib.passwords known.password_hash password)) [
      | inl valid ↦
          inl (record { identity = known; stored = refl; valid = valid }, (known, rw valid refl))
      | inr wrong ↦ inr (wrong-Grants lib known password wrong, rw wrong refl)
    ]

abbrev status_of : {A : Type 0} → Answer A → ℕ
status_of (success a) = 200
status_of (failure e) = e.http_status

-- a granted login answers, or says that the server failed
abbrev IsServed : {A : Type 0} → Answer A → Type 0
IsServed answer = (status_of answer ≡ 200) ⊎ (status_of answer ≡ 500)

view_of-IsServed :
    (cipher : Cipher) (identity : IdentityRecord) (token : String)
    → IsServed (view_of cipher identity token)
unfolding view_of internal
view_of-IsServed cipher identity token =
    elim (Try-cases (decrypt cipher identity.email_ciphertext identity.user_id)) [
      | inl (email, read) ↦ rw (read, view_of) (inl refl)
      | inr (e, failed) ↦ rw (failed, view_of) (inr refl)
    ]

module _ {S : Type 0} (lib : AuthLibrary) (repo : Repository S) (cipher : Cipher) where
  store_session-IsServed :
      (identity : IdentityRecord) (token : String) (token_hash : Digest) (s : S)
      → IsServed (store_session lib identity token token_hash repo cipher s).0
  unfolding store_session internal
  store_session-IsServed identity token token_hash s =
      let stored = repo.create_session (session_for identity token_hash) s in
      elim (Option-cases stored.0) [
        | inr (e, failed) ↦ rw (failed, store_session) (inr refl)
        | inl done ↦ elim (Option-cases (login_audit lib repo identity stored.1).0) [
          | inr (e, failed) ↦ rw (done, store_session, failed) (inr refl)
          | inl audited ↦ rw (done, store_session, audited) (view_of-IsServed cipher identity token)
        ]
      ]

  start_session-IsServed :
      (drawn : Option Bytes) (now : Time) (identity : IdentityRecord) (s : S)
      → IsServed (start_session lib drawn now identity repo cipher s).0
  unfolding start_session internal
  start_session-IsServed drawn now identity s = elim (Option-cases (new_session_token lib drawn)) [
    | inl failed ↦ rw (failed, start_session) (inr refl)
    | inr ((token, token_hash), drew) ↦
        rw (drew, start_session)
          (store_session-IsServed (record identity { session_expires_at = now + session_ttl }) token
            token_hash s)
  ]

  refused_status :
      {A : Type 0} (answer : Answer A) → IsServed answer → answer ≢ failure invalid_credentials
  unfolding unauthorized
  refused_status answer (inl served) e = absurd (omega (arith, sym (ap status_of e) ∙ served))
  refused_status answer (inr failed) e = absurd (omega (arith, sym (ap status_of e) ∙ failed))

  -- A configured login says that the credentials are invalid, and changes nothing, if there is no account
  -- with the email, if the lookup fails or if the password is not the account's; it never says so if
  -- the account is found and the password is its password.
  pub login-invalid_credentials :
      (drawn : Option Bytes) (now : Time) (email password : String) (s : S)
      → (¬ Grants lib (found_account lib repo cipher email s) password
          × (login lib drawn now (configured repo cipher) email password s
              ≡ (failure invalid_credentials, s)))
        ⊎ (Grants lib (found_account lib repo cipher email s) password
            × ((login lib drawn now (configured repo cipher) email password s).0
                ≢ failure invalid_credentials))
  unfolding login
  login-invalid_credentials drawn now email password s =
      elim (Grants-cases lib (found_account lib repo cipher email s) password) [
        | inl (g, (identity, checked)) ↦ inr (
          g,
          rw (login, checked) (refused_status _ (start_session-IsServed drawn now identity s)),
        )
        | inr (refused, unchecked) ↦ inl (refused, rw (login, unchecked) refl)
      ]
