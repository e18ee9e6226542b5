-- ===== src/Auth/Memory/Defaults.antt =====
-- The environments of a project, of which one is the default.
use parity_lab.Prelude.{
  String, Bool, List, [], ◌∷◌, none, some, map, keep, length, string_eq, ◌==◌, eq_iff, ◌≡◌, ◌≢◌,
  refl, sym, ap, ◌∙◌, arith, inl, inr, Bool-cases,
}
use parity_lab.Prelude.Text.{◌<>◌}
use text.Mathlib.TextLemmas.{append_cancel_left}
use parity_lab.Auth.{Environment}
use parity_lab.Auth.Memory.{chosen, find_environment, first_environments}

abbrev is_default : Environment → Bool
is_default item = item.is_default

abbrev pub defaults : List Environment → List Environment
defaults items = keep is_default items

abbrev pub IsDistinct : List Environment → Type 0
IsDistinct [] = Unit
IsDistinct (item ∷ items) = (find_environment item.id items ≡ none) × IsDistinct items

-- The environments of one project: distinct ids, and one default.
pub record IsOneDefault (items : List Environment) : Type 0 where
  pub distinct : IsDistinct items
  pub one : length (defaults items) ≡ 1

pub find_environment-chosen :
    (id key : String) (items : List Environment)
    → find_environment key (map (chosen id) items)
      ≡ elim (find_environment key items) [ none ↦ none | some item ↦ some (chosen id item) ]
unfolding find_environment
find_environment-chosen id key [] = refl
find_environment-chosen id key (item ∷ items) = ground (arith, find_environment-chosen id key items)

chosen-IsDistinct :
    (id : String) (items : List Environment) → IsDistinct items → IsDistinct (map (chosen id) items)
chosen-IsDistinct id [] h = tt
chosen-IsDistinct id (item ∷ items) h =
    (find_environment-chosen id item.id items ∙ rw (h.0) refl, chosen-IsDistinct id items h.1)

-- Nothing is chosen in a list without the id.
defaults-absent :
    (id : String) (items : List Environment)
    → find_environment id items ≡ none
    → defaults (map (chosen id) items) ≡ []
unfolding find_environment
defaults-absent id [] h = refl
defaults-absent id (item ∷ items) h = ground (arith, defaults-absent id items)

pub defaults-chosen :
    (id : String) (items : List Environment) (item : Environment)
    → IsDistinct items
    → find_environment id items ≡ some item
    → defaults (map (chosen id) items) ≡ chosen id item ∷ []
unfolding find_environment
defaults-chosen id [] item d h = cc
defaults-chosen id (first ∷ items) item d h = elim (Bool-cases (first.id == id)) [
  | inl here ↦
      let same : first.id ≡ id = (eq_iff _ _).0 here in
      ground (arith, defaults-absent id items (ap (λ k. find_environment k items) (sym same) ∙ d.0))
  | inr later ↦ ground (arith, later, defaults-chosen id items item)
]

pub chosen-IsOneDefault :
    (id : String) (items : List Environment) (item : Environment)
    → IsOneDefault items
    → find_environment id items ≡ some item
    → IsOneDefault (map (chosen id) items)
chosen-IsOneDefault id items item h found = record {
  distinct = chosen-IsDistinct id items h.distinct;
  one = ap length (defaults-chosen id items item h.distinct found);
}

pub first_environments-IsOneDefault :
    (project_id : String) → IsOneDefault (first_environments project_id)
unfolding find_environment
first_environments-IsOneDefault p = record {
  distinct = ground (
    arith,
    differ ":sandbox" ":local" (ground (arith, eq_iff ":sandbox" ":local")),
    differ ":staging" ":local" (ground (arith, eq_iff ":staging" ":local")),
    differ ":staging" ":sandbox" (ground (arith, eq_iff ":staging" ":sandbox")),
    eq_iff (p <> ":sandbox") (p <> ":local"),
    eq_iff (p <> ":staging") (p <> ":local"),
    eq_iff (p <> ":staging") (p <> ":sandbox"),
  );
  one = refl;
}
  where
    differ : (s t : String) → s ≢ t → (p <> s) ≢ (p <> t)
    differ s t ne e = ne (append_cancel_left p s t e)
