-- ===== src/Failure.antt =====
-- Go's `error` values, by what the code tests of them: the sentinel errors that `errors.Is`
-- compares, the permanent job error that `errors.As` finds, and any other error by its text. A
-- function that returns `(T, error)` and a zero `T` beside an error returns a `Try`.
use parity_lab.Prelude.{String, arith, ◌≡◌, ◌≢◌, refl, ◌⊎◌, inl, inr}

pub data Failure : Type 0 where
  idempotency_conflict webhook_conflict account_exists : Failure
  permanent : String → Failure
  message : String → Failure

pub data Try {ℓ} (A : Type ℓ) : Type ℓ where
  ok : A → Try A
  err : Failure → Try A

infixl 5 ◌>>=◌
abbrev pub ◌>>=◌ {ℓ κ} : {A : Type ℓ} {B : Type κ} → Try A → (A → Try B) → Try B
ok a >>= f = f a
err e >>= f = err e

pub ok-injective {ℓ} : {A : Type ℓ} {a b : A} → ok a ≡ ok b → a ≡ b
ok-injective h = grind arith

pub err_not_ok {ℓ} : {A : Type ℓ} {e : Failure} {a : A} → ok a ≢ err e
err_not_ok h = grind arith

pub Try-cases {ℓ} :
    {A : Type ℓ} (t : Try A) → ((a : A) × (t ≡ ok a)) ⊎ ((e : Failure) × (t ≡ err e))
Try-cases (ok a) = inl (a, refl)
Try-cases (err e) = inr (e, refl)
