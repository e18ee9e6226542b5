-- ===== src/Engine/Service/Ingress/Sanitizing.antt =====
-- What is stored of a webhook's metadata is empty or safe.
use Prim.Native.Char.{Char}
use parity_lab.Prelude.{
  ℕ, ◌≤◌, ◌<◌, String, Bool, true, string_eq, ◌≡◌, sym, ap, ◌∙◌, ◌↔◌, arith, ◌⊎◌, inl, inr, ltb,
  num_eq, Bool-cases,
}
use parity_lab.Engine.Service.Ingress.{
  is_identifier_char, only, has_prefix, safe_webhook_identifier,
}

-- a text of at most `max_length` bytes, with the prefix, of the characters allowed
pub record IsSafe (allowed : Char → Bool) (prefix : String) (max_length : ℕ) (value : String)
    : Type 0 where
  pub short : Prim.Native.String.len value ≤ max_length
  pub prefixed : has_prefix value prefix ≡ true
  pub clean : only allowed value ≡ true

identifier_kept :
    (value prefix : String) (max_length : ℕ)
    → (safe_webhook_identifier value prefix max_length ≡ "")
      ⊎ ((safe_webhook_identifier value prefix max_length ≡ value)
          × IsSafe is_identifier_char prefix max_length value)
unfolding safe_webhook_identifier
identifier_kept value prefix max_length =
    elim (Bool-cases (ltb max_length (Prim.Native.String.len value))) [
      | inl long ↦ inl (ground (arith, long))
      | inr short ↦ elim (Bool-cases (has_prefix value prefix)) [
        | inr other ↦ inl (ground (arith, other))
        | inl prefixed ↦ elim (Bool-cases (only is_identifier_char value)) [
          | inr unsafe ↦ inl (ground (arith, unsafe))
          | inl clean ↦ elim (Bool-cases (num_eq (Prim.Native.String.len value) 0)) [
            | inl empty ↦ inl (ground (arith, empty))
            | inr some_text ↦ inr (
              ground (arith, short, prefixed, clean, some_text),
              record { short = ground (arith, short); prefixed = prefixed; clean = clean },
            )
          ]
        ]
      ]
    ]

-- An identifier that is not empty is kept as it is exactly if it is safe, and is dropped otherwise.
pub safe_webhook_identifier_lem :
    (value prefix : String) (max_length : ℕ)
    → 0 < Prim.Native.String.len value
    → ((safe_webhook_identifier value prefix max_length ≡ value)
        ↔ IsSafe is_identifier_char prefix max_length value)
      × ((safe_webhook_identifier value prefix max_length ≡ value)
          ⊎ (safe_webhook_identifier value prefix max_length ≡ ""))
unfolding safe_webhook_identifier
safe_webhook_identifier_lem value prefix max_length some_text =
    elim (identifier_kept value prefix max_length) [
      | inl dropped ↦ (
        (
          λ same. absurd (omega (arith, some_text, ap Prim.Native.String.len (sym same ∙ dropped))),
          λ safe. ground (arith, some_text, safe.short, safe.prefixed, safe.clean),
        ),
        inr dropped,
      )
      | inr (same, safe) ↦ ((λ _. safe, λ _. same), inl same)
    ]
