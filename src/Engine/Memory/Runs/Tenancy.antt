-- ===== src/Engine/Memory/Runs/Tenancy.antt =====
-- Isolation: what a project or the public can read of another project's runs.
use parity_lab.Prelude.{
  ℕ, ◌==◌, not, sym, String, Bool, true, false, Option, none, some, string_eq, bytes_eq, ◌≡◌, ap,
  ◌≢◌, arith, eq_iff,
}
use parity_lab.Prelude.Table.{get_or, has}
use parity_lab.Engine.Memory.{MemoryRepository}
use parity_lab.Engine.Memory.Runs.{
  run_for_project, events_for_project, report_for_project, public_run, public_events, public_report,
  list_runs_for_project, list_public_runs,
}
use parity_lab.Engine.Memory.Runs.Listing.{without, newest_first-delete}
use parity_lab.Engine.Memory.Stream.{events_after_for_project, public_events_after}

-- what a caller that heeds `ok` reads
abbrev pub granted {ℓ} : {A : Type ℓ} → A × Bool → Option A
granted (a, true) = some a
granted (a, false) = none

-- If a named project reads a run, then no read by its id of another project or of the public shows the
-- run, its events, a page of them or its report, and their lists of runs are those of a repository
-- without the run.
pub reads_exclude :
    (p q id : String) (n limit : ℕ) (r : MemoryRepository)
    → p ≢ q
    → p ≢ ""
    → granted (run_for_project p id r) ≢ none
    → (granted (run_for_project q id r) ≡ none)
      × (granted (events_for_project q id r) ≡ none)
      × (granted (report_for_project q id r) ≡ none)
      × (granted (public_run id r) ≡ none)
      × (granted (public_events id r) ≡ none)
      × (granted (public_report id r) ≡ none)
      × (granted (events_after_for_project q id n limit r) ≡ none)
      × (granted (public_events_after id n limit r) ≡ none)
      × (list_runs_for_project q r ≡ list_runs_for_project q (without id r))
      × (list_public_runs r ≡ list_public_runs (without id r))
unfolding run_for_project events_for_project report_for_project public_run public_events
    public_report events_after_for_project public_events_after list_runs_for_project
    list_public_runs
reads_exclude p q id n limit r ne named h =
    let owner : get_or id "" r.project_by_run ≡ p =
      ground (arith, h, eq_iff (get_or id "" r.project_by_run) p) in
    let other : (get_or id "" r.project_by_run == q) ≡ false =
      ground (arith, owner, ne, eq_iff (get_or id "" r.project_by_run) q) in
    let held : has id r.project_by_run ≡ true = ground (arith, owner, named) in
    (
      rw other (ground arith),
      rw other (ground arith),
      rw other (ground arith),
      rw held (ground arith),
      rw held (ground arith),
      rw held (ground arith),
      rw other (ground arith),
      rw held (ground arith),
      sym (
          newest_first-delete (λ other_id. get_or other_id "" r.project_by_run == q) id r.runs
            other),
      sym (
          newest_first-delete (λ other_id. not (has other_id r.project_by_run)) id r.runs
            (ap not held)),
    )
