-- ===== src/Engine/Memory/Runs/Listing.antt =====
-- memory_repository.go: the lists of runs, where a run that they leave out is added or removed.
use parity_lab.Prelude.{
  ℕ, String, Bool, false, [], ◌∷◌, ◌==◌, string_eq, eq_iff, ◌≡◌, ◌≢◌, refl, ap, ◌∙◌, arith, inl,
  inr, Bool-cases,
}
use parity_lab.Prelude.Table.{Table, lookup, insert, delete, has, get_or}
use parity_lab.Domain.{Run}
use parity_lab.Engine.Memory.{MemoryRepository}
use parity_lab.Engine.Memory.Runs.{newest_first, insert_newest}
use parity_lab.Engine.Memory.Stream.{events_after_locked, scan, page_limit, sort_by_sequence}

-- a repository without a run
abbrev pub without : String → MemoryRepository → MemoryRepository
without id r = record r { runs = delete id r.runs }

-- a run that is not wanted can be removed
pub newest_first-delete :
    (wanted : String → Bool) (id : String) (runs : Table String Run)
    → wanted id ≡ false
    → newest_first wanted (delete id runs) ≡ newest_first wanted runs
unfolding newest_first delete
newest_first-delete wanted id [] h = refl
newest_first-delete wanted id ((other, run) ∷ runs) h = elim (Bool-cases (other == id)) [
  | inl same ↦
      let unwanted : wanted other ≡ false = ap wanted ((eq_iff other id).0 same) ∙ h in
      rw (same, unwanted, delete, newest_first) (newest_first-delete wanted id runs h)
  | inr different ↦ elim (Bool-cases (wanted other)) [
    | inl taken ↦
        rw (different, taken, delete, newest_first)
          (ap (insert_newest run) (newest_first-delete wanted id runs h))
    | inr left ↦ rw (different, left, delete, newest_first) (newest_first-delete wanted id runs h)
  ]
]

-- two tests that agree on every other run, the first of which does not want it
pub record Agree (id : String) (after before : String → Bool) : Type 0 where
  pub unwanted : after id ≡ false
  pub others : (other : String) → id ≢ other → after other ≡ before other

-- a run that is not wanted can be added
pub newest_first-insert :
    (after before : String → Bool) (id : String) (run : Run) (runs : Table String Run)
    → Agree id after before
    → has id runs ≡ false
    → newest_first after (insert id run runs) ≡ newest_first before runs
unfolding newest_first insert lookup
newest_first-insert after before id run [] a h = rw (a.unwanted, insert, newest_first) refl
newest_first-insert after before id run ((other, stored) ∷ runs) a h =
    elim (Bool-cases (other == id)) [
      | inl same ↦ absurd (ground (arith, h, same))
      | inr different ↦
          let deeper : has id runs ≡ false = ground (arith, h, different) in
          let rest = newest_first-insert after before id run runs a deeper in
          let is : after other ≡ before other =
            a.others other (λ e. ground (arith, different, e, eq_iff other id)) in
          elim (Bool-cases (before other)) [
            | inl taken ↦
                rw (different, is, taken, insert, newest_first) (ap (insert_newest stored) rest)
            | inr left ↦ rw (different, is, left, insert, newest_first) rest
          ]
    ]

-- a page depends on the events of its run only
pub events_after_locked-same :
    (run : Run) (n limit : ℕ) (r s : MemoryRepository)
    → get_or run.id [] r.events ≡ get_or run.id [] s.events
    → events_after_locked run n limit r ≡ events_after_locked run n limit s
unfolding events_after_locked
events_after_locked-same run n limit r s h i =
    let page = scan n (page_limit limit) (h i) [] 0 in
    record { run = run; events = sort_by_sequence page.0; high_water = page.1 }
