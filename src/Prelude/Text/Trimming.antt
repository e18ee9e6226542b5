-- ===== src/Prelude/Text/Trimming.antt =====
-- `strings.TrimSpace` leaves no white space at either end.
use Prim.Native.Char.{Char}
use Prim.Native.String.{String}
use mathlib.Core.Path.{◌≡◌, refl, sym, ap, ◌∙◌}
use mathlib.Core.Logic.{◌⊎◌, inl, inr}
use mathlib.Core.Bool.{false, ◌&&◌}
use parity_lab.Prelude.Tests.{◌==◌, string_eq, Bool-cases}
use parity_lab.Prelude.Text.Split.{is_space, trim_left, trim_right, trim_space}

-- a text that is empty or starts with no white space
abbrev Starts : String → Type 0
Starts s =
    (s ≡ "") ⊎ ((c : Char) × (rest : String) × (s ≡ String.◌∷◌ c rest) × (is_space c ≡ false))

trim_left-Starts : (s : String) → Starts (trim_left s)
unfolding trim_left
trim_left-Starts String.[] = inl refl
trim_left-Starts (String.◌∷◌ c s) = elim (Bool-cases (is_space c)) [
  | inl white ↦ rw (white, trim_left) (trim_left-Starts s)
  | inr solid ↦ rw (solid, trim_left) (inr (c, s, refl, solid))
]

trim_right-trim_right : (s : String) → trim_right (trim_right s) ≡ trim_right s
unfolding trim_right
trim_right-trim_right String.[] = refl
trim_right-trim_right (String.◌∷◌ c s) = elim (Bool-cases (trim_right s == "" && is_space c)) [
  | inl gone ↦ rw (gone, trim_right) refl
  | inr stays ↦ rw (stays, trim_right) (rw (trim_right-trim_right s, stays, trim_right) refl)
]

trim_left-solid :
    (c : Char) (s : String) → is_space c ≡ false → trim_left (String.◌∷◌ c s) ≡ String.◌∷◌ c s
unfolding trim_left
trim_left-solid c s solid = rw (solid, trim_left) refl

trim_right-solid :
    (c : Char) (s : String)
    → is_space c ≡ false
    → trim_right (String.◌∷◌ c s) ≡ String.◌∷◌ c (trim_right s)
unfolding trim_right
trim_right-solid c s solid = elim (Bool-cases (trim_right s == "")) [
  | inl bare ↦ rw (bare, solid, trim_right) refl
  | inr more ↦ rw (more, trim_right) refl
]

trim_left-trim_right : (s : String) → Starts s → trim_left (trim_right s) ≡ trim_right s
unfolding trim_left trim_right
trim_left-trim_right s (inl e) = ap (λ t. trim_left (trim_right t)) e ∙ ap trim_right (sym e)
trim_left-trim_right s (inr (c, rest, e, solid)) =
    let right = ap trim_right e ∙ trim_right-solid c rest solid in
    ap trim_left right ∙ trim_left-solid c (trim_right rest) solid ∙ sym right

-- A trimmed text is trimmed to itself.
pub trim_space-trim_space : (s : String) → trim_space (trim_space s) ≡ trim_space s
unfolding trim_space
trim_space-trim_space s =
    ap trim_right (trim_left-trim_right (trim_left s) (trim_left-Starts s))
    ∙ trim_right-trim_right (trim_left s)
