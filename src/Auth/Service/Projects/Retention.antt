-- ===== src/Auth/Service/Projects/Retention.antt =====
-- The retention of a project stays within ten years.
use parity_lab.Prelude.{
  ◌≤◌, String, Bool, true, false, List, Option, some, ltb, ◌==◌, string_eq, ◌≡◌, arith, inl, inr,
  Bool-cases, Option-cases, ◌&&◌, not, zero, suc,
}
use parity_lab.Prelude.Text.Split.{trim_space}
use parity_lab.Prelude.Table.{lookup, insert-every}
use parity_lab.Failure.{Try}
use parity_lab.Engine.Records.{StripeConnection}
use parity_lab.Auth.{ℤ, pos, negsuc, ProjectView, SessionView}
use parity_lab.Auth.Memory as Memory
use parity_lab.Auth.Memory.{AuthMemory, auth_memory_repository, renamed}
use parity_lab.Auth.Service.Projects.{update_project, is_zero, out_of_range}

-- from 1 to 3650 days
abbrev pub IsRetention : ℤ → Type 0
IsRetention (pos n) = (1 ≤ n) × (n ≤ 3650)
IsRetention (negsuc n) = ◌≡◌ {A = Bool} true false

pub record IsRetained (r : AuthMemory) : Type 0 where
  pub within :
      (id : String) (v : ProjectView) → lookup id r.projects ≡ some v → IsRetention v.retention_days

renamed-IsRetention :
    (name : String) (retention : ℤ) (v : ProjectView)
    → (not (is_zero retention) && out_of_range retention) ≡ false
    → IsRetention v.retention_days
    → IsRetention (renamed name retention v).retention_days
renamed-IsRetention name (pos zero) v checked h = h
renamed-IsRetention name (pos (suc n)) v checked h = ground arith
renamed-IsRetention name (negsuc n) v checked h = ground arith

memory-IsRetained :
    (id name : String) (retention : ℤ) (r : AuthMemory)
    → (not (is_zero retention) && out_of_range retention) ≡ false
    → IsRetained r
    → IsRetained (Memory.update_project id name retention r).1
unfolding Memory.update_project
memory-IsRetained id name retention r checked h = elim (Option-cases (lookup id r.projects)) [
  | inl missing ↦ rw (missing, Memory.update_project) h
  | inr (old, found) ↦
      rw (found, Memory.update_project)
        (record {
          within = λ other v e.
              insert-every (λ v. IsRetention v.retention_days) id other (renamed name retention old)
                v r.projects
                (renamed-IsRetention name retention old checked (h.within id old found))
                (h.within other v) e;
        })
]

-- An update of a project over the in-memory storage, with any name and any retention, leaves every
-- project with a retention from 1 to 3650 days if every project had one.
pub update_project-IsRetained :
    (list_connections : Option (String → Try (List StripeConnection))) (identity : SessionView)
    (name : String) (retention : ℤ) (r : AuthMemory)
    → IsRetained r
    → IsRetained
        (update_project (auth_memory_repository list_connections) identity name retention r).1
unfolding update_project auth_memory_repository
update_project-IsRetained list_connections identity name retention r h =
    elim (Bool-cases (trim_space name == "" && is_zero retention)) [
      | inl empty ↦ rw (empty, update_project) h
      | inr given ↦ elim (Bool-cases (ltb 120 (Prim.Native.String.len (trim_space name)))) [
        | inl long ↦ rw (given, update_project, long) h
        | inr short ↦ elim (Bool-cases (not (is_zero retention) && out_of_range retention)) [
          | inl outside ↦ rw (given, update_project, short, outside) h
          | inr checked ↦
              rw (given, update_project, short, checked)
                (memory-IsRetained identity.project.id (trim_space name) retention r checked h)
        ]
      ]
    ]
