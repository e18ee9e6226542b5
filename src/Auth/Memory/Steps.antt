-- ===== src/Auth/Memory/Steps.antt =====
-- The storage as a state machine: its changes in any order. Registrations bring a project id that is
-- not in use, as the service draws it at random.
use parity_lab.Prelude.{
  String, Bool, List, [], none, some, string_eq, bytes_eq, ◌==◌, eq_iff, ◌≡◌, refl, arith, inl, inr,
  Bool-cases, Option-cases,
}
use parity_lab.Prelude.Table.{lookup, insert, get_or, lookup-insert, insert-every}
use parity_lab.Domain.{Time}
use parity_lab.Engine.Records.{Digest}
use parity_lab.Auth.{ℤ, SessionRecord, IdentityRecord, ProjectView, Environment, Registration}
use parity_lab.Auth.Memory.{
  AuthMemory, new_auth_memory, register, create_session, revoke_session, update_project,
  select_environment, set_finding_resolved, mark_notification_read, mark_all_notifications_read,
  find_environment, renamed, rename_users, identity_of, project_of, first_environments,
}
use parity_lab.Auth.Memory.Defaults.{
  IsOneDefault, chosen-IsOneDefault, first_environments-IsOneDefault,
}
use parity_lab.Auth.Memory.Views.{lookup-rename_users}

pub data Step (r : AuthMemory) : AuthMemory → Type 0 where
  registers :
      (input : Registration)
      → lookup input.project_id r.projects ≡ none
      → Step r (register input r).1
  creates : (s : SessionRecord) → Step r (create_session s r)
  revokes : (hash : Digest) → Step r (revoke_session hash r)
  updates : (id name : String) (retention : ℤ) → Step r (update_project id name retention r).1
  selects : (project_id id : String) → Step r (select_environment project_id id r).1
  resolves :
      (project_id id : String) (resolved : Bool)
      → Step r (set_finding_resolved project_id id resolved r).1
  marks :
      (now : Time) (project_id id : String) → Step r (mark_notification_read now project_id id r).1
  marks_all :
      (now : Time) (project_id : String) → Step r (mark_all_notifications_read now project_id r).1

pub data Reach (r : AuthMemory) : AuthMemory → Type 0 where
  here : Reach r r
  next : {s t : AuthMemory} → Reach r s → Step s t → Reach r t

-- the project as a user's record shows it
abbrev pub shown : IdentityRecord → ProjectView
shown u = record { id = u.project_id; name = u.project_name; retention_days = u.retention_days }

-- Every user shows the stored project, every project is stored under its id, and each project has
-- one default environment.
pub record IsConsistent (r : AuthMemory) : Type 0 where
  pub users :
      (hash : Digest) (u : IdentityRecord)
      → lookup hash r.users ≡ some u
      → lookup u.project_id r.projects ≡ some (shown u)
  pub projects : (id : String) (v : ProjectView) → lookup id r.projects ≡ some v → v.id ≡ id
  pub environments :
      (id : String) (items : List Environment)
      → lookup id r.environments ≡ some items
      → IsOneDefault items

pub new-IsConsistent : IsConsistent new_auth_memory
unfolding new_auth_memory lookup
new-IsConsistent = record {
  users = λ hash u e. cc;
  projects = λ id v e. cc;
  environments = λ id items e. cc;
}

register-users :
    (input : Registration) (r : AuthMemory)
    → IsConsistent r
    → lookup input.project_id r.projects ≡ none
    → (hash : Digest) (u : IdentityRecord)
    → lookup hash (insert input.user.email_hash (identity_of input) r.users) ≡ some u
    → lookup u.project_id (insert input.project_id (project_of input) r.projects) ≡ some (shown u)
register-users input r c new hash u e = ground (
  arith,
  lookup-insert input.user.email_hash hash (identity_of input) r.users,
  lookup-insert input.project_id u.project_id (project_of input) r.projects,
  eq_iff input.project_id u.project_id,
  c.users hash u,
)

register-IsConsistent :
    (input : Registration) (r : AuthMemory)
    → IsConsistent r
    → lookup input.project_id r.projects ≡ none
    → IsConsistent (register input r).1
unfolding register
register-IsConsistent input r c new = elim (Option-cases (lookup input.user.email_hash r.users)) [
  | inr (u, known) ↦ rw (known, register) c
  | inl unknown ↦
      rw (unknown, register)
        (record {
          users = register-users input r c new;
          projects = λ id v e. ground (
            arith,
            lookup-insert input.project_id id (project_of input) r.projects,
            eq_iff input.project_id id,
            c.projects id v,
          );
          environments = λ id items e.
              insert-every IsOneDefault input.project_id id (first_environments input.project_id)
                items r.environments (first_environments-IsOneDefault input.project_id)
                (c.environments id items) e;
        })
]

update-users :
    (id : String) (v : ProjectView) (r : AuthMemory)
    → IsConsistent r
    → v.id ≡ id
    → (hash : Digest) (u : IdentityRecord) → lookup hash (rename_users id v r.users) ≡ some u
    → lookup u.project_id (insert id v r.projects) ≡ some (shown u)
update-users id v r c named hash u e = elim (Option-cases (lookup hash r.users)) [
  | inl missing ↦ ground (arith, missing, lookup-rename_users hash id v r.users)
  | inr (old, found) ↦ elim (Bool-cases (old.project_id == id)) [
    | inl member ↦ ground (
      arith,
      found,
      member,
      lookup-rename_users hash id v r.users,
      lookup-insert id u.project_id v r.projects,
      eq_iff old.project_id id,
      eq_iff id u.project_id,
    )
    | inr other ↦ ground (
      arith,
      found,
      other,
      lookup-rename_users hash id v r.users,
      lookup-insert id u.project_id v r.projects,
      eq_iff old.project_id id,
      eq_iff id u.project_id,
      c.users hash old,
    )
  ]
]

update_project-IsConsistent :
    (id name : String) (retention : ℤ) (r : AuthMemory)
    → IsConsistent r
    → IsConsistent (update_project id name retention r).1
unfolding update_project
update_project-IsConsistent id name retention r c = elim (Option-cases (lookup id r.projects)) [
  | inl missing ↦ rw (missing, update_project) c
  | inr (old, found) ↦
      rw (found, update_project)
        (record {
          users = update-users id (renamed name retention old) r c (c.projects id old found);
          projects = λ other v e. ground (
            arith,
            lookup-insert id other (renamed name retention old) r.projects,
            eq_iff id other,
            c.projects other v,
            c.projects id old found,
          );
          environments = c.environments;
        })
]

-- a project with an environment is stored
stored-IsOneDefault :
    (project_id id : String) (item : Environment) (r : AuthMemory)
    → IsConsistent r
    → find_environment id (get_or project_id [] r.environments) ≡ some item
    → IsOneDefault (get_or project_id [] r.environments)
unfolding find_environment
stored-IsOneDefault project_id id item r c e =
    elim (Option-cases (lookup project_id r.environments)) [
      | inl missing ↦ ground (arith, missing)
      | inr (items, found) ↦ rw (found, get_or) (c.environments project_id items found)
    ]

select_environment-IsConsistent :
    (project_id id : String) (r : AuthMemory)
    → IsConsistent r
    → IsConsistent (select_environment project_id id r).1
unfolding select_environment
select_environment-IsConsistent project_id id r c =
    elim (Option-cases (find_environment id (get_or project_id [] r.environments))) [
      | inl absent ↦ rw (select_environment, absent) c
      | inr (item, present) ↦
          rw (select_environment, present)
            (record {
              users = c.users;
              projects = c.projects;
              environments = λ other others e.
                  insert-every IsOneDefault project_id other _ others r.environments
                    (chosen-IsOneDefault id _ item
                      (stored-IsOneDefault project_id id item r c present) present)
                    (c.environments other others) e;
            })
    ]

-- what the findings and the notifications do not touch
abbrev SameAccounts : AuthMemory → AuthMemory → Type 0
SameAccounts r s =
    (s.users ≡ r.users) × (s.projects ≡ r.projects) × (s.environments ≡ r.environments)

kept : {r s : AuthMemory} → IsConsistent r → SameAccounts r s → IsConsistent s
kept c (users, projects, environments) = record {
  users = rw (users, projects) c.users;
  projects = rw projects c.projects;
  environments = rw environments c.environments;
}

set_finding_resolved-kept :
    (project_id id : String) (resolved : Bool) (r : AuthMemory)
    → SameAccounts r (set_finding_resolved project_id id resolved r).1
unfolding set_finding_resolved
set_finding_resolved-kept project_id id resolved r = ground arith

mark_notification_read-kept :
    (now : Time) (project_id id : String) (r : AuthMemory)
    → SameAccounts r (mark_notification_read now project_id id r).1
unfolding mark_notification_read
mark_notification_read-kept now project_id id r = ground arith

mark_all_notifications_read-kept :
    (now : Time) (project_id : String) (r : AuthMemory)
    → SameAccounts r (mark_all_notifications_read now project_id r).1
unfolding mark_all_notifications_read
mark_all_notifications_read-kept now project_id r = ground arith

Step-IsConsistent : {r s : AuthMemory} → IsConsistent r → Step r s → IsConsistent s
unfolding create_session revoke_session
Step-IsConsistent {r} c (registers input new) = register-IsConsistent input r c new
Step-IsConsistent {r} c (creates s) = kept c (refl, refl, refl)
Step-IsConsistent {r} c (revokes hash) = kept c (refl, refl, refl)
Step-IsConsistent {r} c (updates id name retention) =
    update_project-IsConsistent id name retention r c
Step-IsConsistent {r} c (selects project_id id) = select_environment-IsConsistent project_id id r c
Step-IsConsistent {r} c (resolves project_id id resolved) =
    kept c (set_finding_resolved-kept project_id id resolved r)
Step-IsConsistent {r} c (marks now project_id id) =
    kept c (mark_notification_read-kept now project_id id r)
Step-IsConsistent {r} c (marks_all now project_id) =
    kept c (mark_all_notifications_read-kept now project_id r)

-- No change of the storage, in any order, breaks its consistency: every user shows the stored name and
-- retention of the project, projects are stored under their ids, and the environments of each
-- project have distinct ids and one default. The condition on a registration is a new project id.
pub Reach-IsConsistent : {r s : AuthMemory} → IsConsistent r → Reach r s → IsConsistent s
Reach-IsConsistent c here = c
Reach-IsConsistent c (next before step) = Step-IsConsistent (Reach-IsConsistent c before) step
