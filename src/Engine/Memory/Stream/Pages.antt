-- ===== src/Engine/Memory/Stream/Pages.antt =====
-- A page is the first events after the cursor, and the pages of a run that is stored in order miss none.
use parity_lab.Prelude.{
  ℕ, zero, suc, ◌+◌, ◌≤◌, ◌<◌, string_eq, Bool, true, false, List, [], ◌∷◌, ◌++◌, if◌then◌else◌,
  ◌≡◌, refl, sym, ap, ◌∙◌, arith, ltb, leb, length, take, keep, ◌||◌, append_assoc, append-nil,
  length-append, Bool-cases, inl, inr,
}
use parity_lab.Prelude.Table.{get_or}
use parity_lab.Domain.{Run, Event}
use parity_lab.Engine.Memory.{MemoryRepository}
use parity_lab.Engine.Memory.Stream.{page_limit, scan, sort_by_sequence, events_after_locked}

-- an event behind the cursor
abbrev pub is_after : ℕ → Event → Bool
is_after after event = ltb after event.sequence

-- every event follows the ones before it: its sequence is above `n`, and so on
abbrev pub IsAscending : ℕ → List Event → Type 0
IsAscending n [] = Unit
IsAscending n (event ∷ events) = (n < event.sequence) × IsAscending event.sequence events

-- the highest sequence, at least `n`
unfoldable pub highest : ℕ → List Event → ℕ
highest n [] = n
highest n (event ∷ events) = highest (if ltb n event.sequence then event.sequence else n) events

take-nil : (n : ℕ) → take {A = Event} n [] ≡ []
take-nil zero = refl
take-nil (suc n) = refl

-- with `room` places left in the page
scan-picked :
    (after limit room : ℕ) (all picked : List Event) (high : ℕ)
    → length picked + room ≡ limit
    → (scan after limit all picked high).0 ≡ picked ++ take room (keep (is_after after) all)
unfolding scan
scan-picked after limit room [] picked high h =
    sym (append-nil picked) ∙ ap (◌++◌ picked) (sym (take-nil room))
scan-picked after limit zero (event ∷ all) picked high h =
    rw (full (leb event.sequence after), scan) (scan-picked after limit zero all picked _ h)
  where
    full : (b : Bool) → (b || leb limit (length picked)) ≡ true
    full b = ground arith
scan-picked after limit (suc room) (event ∷ all) picked high h =
    elim (Bool-cases (leb event.sequence after)) [
      | inl old ↦
          rw (old, scan, skipped old, keep) (scan-picked after limit (suc room) all picked _ h)
      | inr new ↦
          rw (new, scan, not_full, picked_too new, keep)
            (scan-picked after limit room all (picked ++ event ∷ []) _
                (omega (arith, length-append picked (event ∷ [])))
              ∙ append_assoc picked (event ∷ []) (take room (keep (is_after after) all)))
    ]
  where
    skipped : leb event.sequence after ≡ true → is_after after event ≡ false
    skipped e = ground arith

    picked_too : leb event.sequence after ≡ false → is_after after event ≡ true
    picked_too e = ground arith

    not_full : leb limit (length picked) ≡ false
    not_full = ground arith

scan-high :
    (after limit : ℕ) (all picked : List Event) (high : ℕ)
    → (scan after limit all picked high).1 ≡ highest high all
unfolding scan highest
scan-high after limit [] picked high = refl
scan-high after limit (event ∷ all) picked high = scan-high after limit all _ _

IsAscending-weaken :
    (m n : ℕ) (events : List Event) → m ≤ n → IsAscending n events → IsAscending m events
IsAscending-weaken m n [] h a = tt
IsAscending-weaken m n (event ∷ events) h a = (omega arith, a.1)

pub take-IsAscending :
    (k n : ℕ) (events : List Event) → IsAscending n events → IsAscending n (take k events)
take-IsAscending zero n events a = tt
take-IsAscending (suc k) n [] a = tt
take-IsAscending (suc k) n (event ∷ events) a = (a.0, take-IsAscending k event.sequence events a.1)

keep-IsAscending :
    (after n : ℕ) (events : List Event)
    → IsAscending n events
    → IsAscending n (keep (is_after after) events)
keep-IsAscending after n [] a = tt
keep-IsAscending after n (event ∷ events) a = elim (Bool-cases (is_after after event)) [
  | inl kept ↦ rw (kept, keep) (a.0, keep-IsAscending after event.sequence events a.1)
  | inr dropped ↦
      rw (dropped, keep)
        (IsAscending-weaken n event.sequence _ (omega arith)
          (keep-IsAscending after event.sequence events a.1))
]

in_order :
    (n : ℕ) (event next : Event)
    → n < event.sequence
    → event.sequence < next.sequence
    → ltb next.sequence event.sequence ≡ false
in_order n event next h lt = ground arith

sort_by_sequence_ascending :
    (n : ℕ) (events : List Event) → IsAscending n events → sort_by_sequence events ≡ events
unfolding sort_by_sequence
sort_by_sequence_ascending n [] a = refl
sort_by_sequence_ascending n (event ∷ []) a = refl
sort_by_sequence_ascending n (event ∷ next ∷ events) a =
    rw (sort_by_sequence_ascending event.sequence (next ∷ events) a.1)
      (rw (in_order n event next a.0 a.1.0))

-- The page of a run whose events are stored in ascending order: the first events behind the cursor, as
-- many as the page holds, and the highest stored sequence.
pub events_after_locked_lem :
    (run : Run) (after limit : ℕ) (r : MemoryRepository)
    → IsAscending 0 (get_or run.id [] r.events)
    → ((events_after_locked run after limit r).events
        ≡ take (page_limit limit) (keep (is_after after) (get_or run.id [] r.events)))
      × ((events_after_locked run after limit r).high_water ≡ highest 0 (get_or run.id [] r.events))
unfolding events_after_locked
events_after_locked_lem run after limit r a =
    let all = get_or run.id [] r.events in
    let page = scan-picked after (page_limit limit) (page_limit limit) all [] 0 (omega arith) in
    (
      ap sort_by_sequence page
          ∙ sort_by_sequence_ascending 0 _
              (take-IsAscending (page_limit limit) 0 _ (keep-IsAscending after 0 all a)),
      scan-high after (page_limit limit) all [] 0,
    )
