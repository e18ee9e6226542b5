-- ===== src/Http/Stream/Events.antt =====
-- Events in ascending order, and those after a cursor.
use parity_lab.Prelude.{
  ℕ, zero, suc, ◌+◌, ◌<◌, ◌≤◌, List, [], ◌∷◌, ◌++◌, length, take, keep, ◌≡◌, refl, ap, arith, inl,
  inr, Bool-cases,
}
use parity_lab.Domain.{Event}
use parity_lab.Engine.Memory.Stream.Pages.{IsAscending, is_after}

abbrev pub drop {ℓ} : {A : Type ℓ} → ℕ → List A → List A
drop zero xs = xs
drop (suc n) [] = []
drop (suc n) (x ∷ xs) = drop n xs

-- the sequence of the last event, and the cursor if there is none
abbrev pub last_sequence : ℕ → List Event → ℕ
last_sequence n [] = n
last_sequence n (event ∷ events) = last_sequence event.sequence events

keep_all :
    (m n : ℕ) (events : List Event)
    → m ≤ n
    → IsAscending n events
    → keep (is_after m) events ≡ events
keep_all m n [] le h = refl
keep_all m n (event ∷ events) le h =
    ground (arith, le, h.0, keep_all m event.sequence events (omega (arith, le, h.0)) h.1)

pub last_sequence_le :
    (k n : ℕ) (events : List Event) → IsAscending n events → n ≤ last_sequence n (take k events)
last_sequence_le zero n events h = omega arith
last_sequence_le (suc k) n [] h = omega arith
last_sequence_le (suc k) n (event ∷ events) h =
    omega (arith, h.0, last_sequence_le k event.sequence events h.1)

-- what follows the first events is what is after the last of them
pub keep-last_sequence :
    (k n : ℕ) (events : List Event)
    → IsAscending n events
    → keep (is_after (last_sequence n (take k events))) events ≡ drop k events
keep-last_sequence zero n events h = keep_all n n events (omega arith) h
keep-last_sequence (suc k) n [] h = refl
keep-last_sequence (suc k) n (event ∷ events) h = ground (
  arith,
  last_sequence_le k event.sequence events h.1,
  keep-last_sequence k event.sequence events h.1,
)

pub keep-keep :
    (m n : ℕ) (events : List Event)
    → m ≤ n
    → keep (is_after n) (keep (is_after m) events) ≡ keep (is_after n) events
keep-keep m n [] le = refl
keep-keep m n (event ∷ events) le = elim (Bool-cases (is_after m event)) [
  | inl kept ↦ rw kept (ground (arith, keep-keep m n events le))
  | inr dropped ↦ rw dropped (ground (arith, le, dropped, keep-keep m n events le))
]

pub keep-IsAscending :
    (m n : ℕ) (events : List Event)
    → IsAscending n events
    → IsAscending m (keep (is_after m) events)
keep-IsAscending m n [] h = tt
keep-IsAscending m n (event ∷ events) h = elim (Bool-cases (is_after m event)) [
  | inl kept ↦
      rw (kept, keep)
        (ground (arith, kept), rw (keep_all m event.sequence events (ground (arith, kept)) h.1) h.1)
  | inr dropped ↦ rw (dropped, keep) (keep-IsAscending m event.sequence events h.1)
]

pub take-drop : (k : ℕ) (events : List Event) → take k events ++ drop k events ≡ events
take-drop zero events = refl
take-drop (suc k) [] = refl
take-drop (suc k) (event ∷ events) = ap (λ l. event ∷ l) (take-drop k events)

pub drop_short : (k : ℕ) (events : List Event) → length (take k events) < k → drop k events ≡ []
drop_short zero events h = absurd (omega (arith, h))
drop_short (suc k) [] h = refl
drop_short (suc k) (event ∷ events) h = drop_short k events (omega (arith, h))

pub length-drop :
    (k : ℕ) (events : List Event) → length (take k events) + length (drop k events) ≡ length events
length-drop zero events = omega arith
length-drop (suc k) [] = omega arith
length-drop (suc k) (event ∷ events) = omega (arith, length-drop k events)

pub last_sequence-append :
    (n : ℕ) (a b : List Event) → last_sequence n (a ++ b) ≡ last_sequence (last_sequence n a) b
last_sequence-append n [] b = refl
last_sequence-append n (event ∷ a) b = last_sequence-append event.sequence a b
