-- ===== src/Prelude/Text/Split.antt =====
-- What `strings` and `strconv` do with a separator, with white space and with decimal numerals.
use Prim.Native.Nat.{ℕ, ◌^◌}
use Prim.Native.Char.{Char, code}
use Prim.Native.String.{String}
use Prim.Native.String.append
use mathlib.Core.Path.{◌≡◌, refl, ap, ◌∙◌}
use mathlib.Core.Bool.{Bool, true, false, ◌&&◌, ◌||◌}
use mathlib.Core.Option.{Option, none, some}
use mathlib.Core.List.{List, [], ◌∷◌}
use native.Mathlib.Omega.{arith}
use parity_lab.Prelude.Tests.{ltb, leb, num_eq, ◌==◌, string_eq, if◌then◌else◌}
use parity_lab.Prelude.Text.{◌<>◌}
use parity_lab.Prelude.Text.Decimal.{digits_value}

abbrev pub before_first : Char → List String → List String
before_first c [] = String.◌∷◌ c String.[] ∷ []
before_first c (word ∷ words) = String.◌∷◌ c word ∷ words

-- `strings.Split` by one ASCII character
unfoldable pub split : ℕ → String → List String
split k String.[] = String.[] ∷ []
split k (String.◌∷◌ c s) =
    let words = split k s in if num_eq (code c) k then String.[] ∷ words else before_first c words

-- `strings.Cut` at one ASCII character
unfoldable pub cut : ℕ → String → Option (String × String)
cut k String.[] = none
cut k (String.◌∷◌ c s) =
    let rest : Option (String × String) = elim (cut k s) [
      | none ↦ none
      | some (before, after) ↦ some (String.◌∷◌ c before, after)
    ] in
    if num_eq (code c) k then some (String.[], s) else rest

-- `strings.Contains` of one ASCII character
unfoldable pub contains : ℕ → String → Bool
contains k String.[] = false
contains k (String.◌∷◌ c s) = num_eq (code c) k || contains k s

-- the separator follows a text that has none
pub split-append :
    (k : ℕ) (s : String) (c : Char) (rest : String)
    → contains k s ≡ false
    → code c ≡ k
    → split k (s <> String.◌∷◌ c rest) ≡ s ∷ split k rest
unfolding split contains
split-append k String.[] c rest h e =
    ap (split k) (append.nil (String.◌∷◌ c rest)) ∙ ground (arith, e)
split-append k (String.◌∷◌ d s) c rest h e =
    ap (split k) (append.cons d s (String.◌∷◌ c rest)) ∙ ground (arith, split-append k s c rest)

pub split_one : (k : ℕ) (s : String) → contains k s ≡ false → split k s ≡ s ∷ []
unfolding split contains
split_one k String.[] h = refl
split_one k (String.◌∷◌ d s) h = ground (arith, split_one k s)

-- `unicode.IsSpace`
unfoldable pub is_space : Char → Bool
is_space c =
    let k = code c in
    leb 9 k && leb k 13
    || num_eq k 32
    || num_eq k 133
    || num_eq k 160
    || num_eq k 5760
    || leb 8192 k && leb k 8202
    || num_eq k 8232
    || num_eq k 8233
    || num_eq k 8239
    || num_eq k 8287
    || num_eq k 12288

unfoldable pub trim_left : String → String
unfolding is_space
trim_left String.[] = String.[]
trim_left (String.◌∷◌ c s) = let rest = trim_left s in if is_space c then rest else String.◌∷◌ c s

unfoldable pub trim_right : String → String
unfolding is_space
trim_right String.[] = String.[]
trim_right (String.◌∷◌ c s) =
    let rest = trim_right s in if rest == "" && is_space c then String.[] else String.◌∷◌ c rest

-- `strings.TrimSpace`
unfoldable pub trim_space : String → String
unfolding trim_left trim_right
trim_space s = trim_right (trim_left s)

-- `strconv.ParseUint` in base 10 with a size in bits
unfoldable pub parse_uint : ℕ → String → Option ℕ
unfolding digits_value
parse_uint bits s = elim (digits_value 0 s) [
  | none ↦ none
  | some n ↦ if s == "" then none else if ltb n (2 ^ bits) then some n else none
]

abbrev pub is_digit : Char → Bool
is_digit c = leb b'0' (code c) && leb (code c) b'9'

-- the lower-case digits of base 16
abbrev pub is_hex : Char → Bool
is_hex c = leb b'0' (code c) && leb (code c) b'9' || leb b'a' (code c) && leb (code c) b'f'

unfoldable pub every : (Char → Bool) → String → Bool
every p String.[] = true
every p (String.◌∷◌ c s) = p c && every p s

pub every-append :
    (p : Char → Bool) (s t : String) → every p s ≡ true → every p t ≡ true → every p (s <> t) ≡ true
unfolding every
every-append p String.[] t hs ht = ap (every p) (append.nil t) ∙ ht
every-append p (String.◌∷◌ c s) t hs ht =
    ap (every p) (append.cons c s t) ∙ ground (arith, every-append p s t)

pub contains-append : (k : ℕ) (s t : String) → contains k (s <> t) ≡ (contains k s || contains k t)
unfolding contains
contains-append k String.[] t = ap (contains k) (append.nil t)
contains-append k (String.◌∷◌ c s) t =
    ap (contains k) (append.cons c s t) ∙ ground (arith, contains-append k s t)

reads : split 36 "$a$b" ≡ "" ∷ "a" ∷ "b" ∷ []
unfolding split
reads = refl

trims : trim_space " \t ab c \n" ≡ "ab c"
unfolding trim_space
trims = refl

parses : parse_uint 32 "4294967295" ≡ some 4294967295
unfolding parse_uint
parses = refl

overflows : parse_uint 32 "4294967296" ≡ none
unfolding parse_uint
overflows = refl
