-- ===== src/Prelude/Table.antt =====
-- Go maps as association lists with one entry for a key. An entry that is written again stays
-- where it is, so the order is that of first insertion.
use mathlib.Core.Path.{◌≡◌, refl, sym, subst, ◌∙◌}
use mathlib.Core.Logic.{◌≢◌, inl, inr}
use mathlib.Core.Bool.{Bool, true, false}
use mathlib.Core.List.{List, [], ◌∷◌}
use mathlib.Core.Option.{Option, none, some}
use native.Mathlib.Omega.{arith}
use parity_lab.Prelude.Tests.{Eq, beq_self, ◌==◌, if◌then◌else◌, Bool-cases}

abbrev pub Table {ℓ} : Type ℓ → Type ℓ → Type ℓ
Table K V = List (K × V)

pub some-injective {ℓ} : {A : Type ℓ} {x y : A} → some x ≡ some y → x ≡ y
some-injective h = cc

module _ {ℓ} {K V : Type ℓ} ⦃e : Eq K⦄ where
  -- `v, ok := m[k]`
  unfoldable pub lookup : K → Table K V → Option V
  lookup key [] = none
  lookup key ((k, x) ∷ entries) = if k == key then some x else lookup key entries

  -- `delete(m, k)`
  unfoldable pub delete : K → Table K V → Table K V
  delete k [] = []
  delete k ((j, v) ∷ m) = let rest = delete k m in if j == k then rest else (j, v) ∷ rest

  -- `_, ok := m[k]`
  abbrev pub has : K → Table K V → Bool
  has k m = elim (lookup k m) [ none ↦ false | some _ ↦ true ]

  -- `m[k]`, which is the zero value for a missing key
  abbrev pub get_or : K → V → Table K V → V
  get_or k zero_value m = elim (lookup k m) [ none ↦ zero_value | some v ↦ v ]

  -- `m[k] = v`
  unfoldable pub insert : K → V → Table K V → Table K V
  insert key x [] = (key, x) ∷ []
  insert key x ((k, y) ∷ entries) =
      if k == key then (key, x) ∷ entries else (k, y) ∷ insert key x entries

  pub lookup-insert :
      (key other : K) (x : V) (entries : Table K V)
      → lookup other (insert key x entries)
        ≡ (if key == other then some x else lookup other entries)
  unfolding insert lookup
  lookup-insert key other x [] = refl
  lookup-insert key other x ((k, y) ∷ entries) = ground (
    arith,
    lookup-insert key other x entries,
    e.beq_iff k key,
    e.beq_iff k other,
    e.beq_iff key other,
  )

  pub lookup-insert_self : (k : K) (v : V) (m : Table K V) → lookup k (insert k v m) ≡ some v
  lookup-insert_self k v m = rw (lookup-insert k k v m) (rw (beq_self k))

  pub lookup-insert_ne :
      (k j : K) (v : V) (m : Table K V) → j ≢ k → lookup j (insert k v m) ≡ lookup j m
  lookup-insert_ne k j v m h = rw (lookup-insert k j v m) (ground (arith, e.beq_iff k j))

  pub lookup-delete :
      (k j : K) (m : Table K V) → lookup j (delete k m) ≡ (if k == j then none else lookup j m)
  unfolding lookup delete
  lookup-delete k j [] = ground arith
  lookup-delete k j ((i, w) ∷ m) =
      ground (arith, lookup-delete k j m, e.beq_iff i k, e.beq_iff i j, e.beq_iff k j)

  pub get_or-insert :
      (k j : K) (d v : V) (m : Table K V)
      → get_or j d (insert k v m) ≡ (if k == j then v else get_or j d m)
  get_or-insert k j d v m = ground (arith, lookup-insert k j v m)

  pub has-insert :
      (k j : K) (v : V) (m : Table K V) → has j (insert k v m) ≡ (if k == j then true else has j m)
  has-insert k j v m = ground (arith, lookup-insert k j v m)

  -- What holds of the new entry and of the old ones holds of every entry.
  pub insert-every {κ} :
      (P : V → Type κ) (key other : K) (x y : V) (entries : Table K V)
      → P x
      → (lookup other entries ≡ some y → P y)
      → lookup other (insert key x entries) ≡ some y
      → P y
  insert-every P key other x y entries new old e = elim (Bool-cases (key == other)) [
    | inl same ↦
        subst P (some-injective (sym (rw (lookup-insert key other x entries, same) refl) ∙ e)) new
    | inr different ↦ old (sym (rw (lookup-insert key other x entries, different) refl) ∙ e)
  ]

  -- one entry for a key, as in a Go map
  abbrev pub IsMap : Table K V → Type ℓ
  IsMap [] = Unit
  IsMap ((k, v) ∷ m) = (lookup k m ≡ none) × IsMap m

  pub insert-IsMap : (k : K) (v : V) (m : Table K V) → IsMap m → IsMap (insert k v m)
  unfolding insert lookup
  insert-IsMap k v [] h = (refl, tt)
  insert-IsMap k v ((j, w) ∷ m) h =
      ground (arith, insert-IsMap k v m h.1, lookup-insert k j v m, e.beq_iff j k, e.beq_iff k j)
