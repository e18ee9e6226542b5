-- ===== src/Auth/Memory.antt =====
-- auth/memory_repository.go: the in-memory storage of accounts. Each operation holds the mutex from
-- end to end, so it is one step from state to state; `now` is the clock. A map that the code
-- iterates over is visited in the order of first insertion. A copy of a slice is the slice itself.
pub mod Defaults
pub mod Views
pub mod Steps
pub mod Accounts
use parity_lab.Prelude.{
  ℕ, zero, suc, String, Bool, true, false, List, [], ◌∷◌, Option, none, some, ◌==◌, string_eq,
  bytes_eq, if◌then◌else◌, ◌&&◌, ◌||◌, not, map,
}
use parity_lab.Prelude.Table.{Table, lookup, insert, delete, get_or}
use parity_lab.Prelude.Text.{◌<>◌}
use parity_lab.Failure.{Failure, Try, ok, err, account_exists}
use parity_lab.Domain.{Time, Finding, Value}
use parity_lab.Engine.Records.{Digest, StripeConnection}
use parity_lab.Auth.{
  ℤ, pos, negsuc, SessionRecord, Registration, IdentityRecord, ProjectView, Environment,
  Notification, Repository,
}

pub record AuthMemory : Type 0 where
  pub users : Table Digest IdentityRecord
  pub sessions : Table Digest SessionRecord
  pub projects : Table String ProjectView
  pub environments : Table String (List Environment)
  pub findings : Table String (Table String Finding)
  pub notifications : Table String (Table String Notification)

unfoldable pub new_auth_memory : AuthMemory
new_auth_memory = record {
  users = [];
  sessions = [];
  projects = [];
  environments = [];
  findings = [];
  notifications = [];
}

abbrev pub identity_of : Registration → IdentityRecord
identity_of input = record {
  user_id = input.user.id;
  email_ciphertext = input.user.email_ciphertext;
  password_hash = input.user.password_hash;
  organization_id = input.organization_id;
  organization_name = input.organization_name;
  role = "owner";
  project_id = input.project_id;
  project_name = input.project_name;
  retention_days = input.retention_days;
  session_expires_at = 0;
}

abbrev pub project_of : Registration → ProjectView
project_of input = record {
  id = input.project_id;
  name = input.project_name;
  retention_days = input.retention_days;
}

abbrev pub environment : String → String → String → Bool → Environment
environment id name kind is_default = record {
  id = id;
  name = name;
  kind = kind;
  is_default = is_default;
}

abbrev pub first_environments : String → List Environment
first_environments project_id =
    environment (project_id <> ":local") "Local" "local" false
    ∷ environment (project_id <> ":sandbox") "Sandbox" "sandbox" true
    ∷ environment (project_id <> ":staging") "Staging" "staging" false
    ∷ []

unfoldable pub register : Registration → AuthMemory → Option Failure × AuthMemory
register input r = elim (lookup input.user.email_hash r.users) [
  | some known ↦ (some account_exists, r)
  | none ↦ (
    none,
    record r {
      users = insert input.user.email_hash (identity_of input) r.users;
      sessions = insert input.session.token_hash input.session r.sessions;
      projects = insert input.project_id (project_of input) r.projects;
      environments = insert input.project_id (first_environments input.project_id) r.environments;
    },
  )
]

unfoldable pub user_by_email_hash : Digest → AuthMemory → Option IdentityRecord
user_by_email_hash hash r = lookup hash r.users

unfoldable pub create_session : SessionRecord → AuthMemory → AuthMemory
create_session session r = record r { sessions = insert session.token_hash session r.sessions }

-- the first user that a session names
unfoldable pub user_of : SessionRecord → Table Digest IdentityRecord → Option IdentityRecord
user_of s [] = none
user_of s ((hash, u) ∷ users) =
    if u.user_id == s.user_id && u.project_id == s.project_id
    then some (record u { session_expires_at = s.expires_at })
    else user_of s users

unfoldable pub session : Digest → AuthMemory → Option IdentityRecord
unfolding user_of
session hash r = elim (lookup hash r.sessions) [ none ↦ none | some s ↦ user_of s r.users ]

unfoldable pub revoke_session : Digest → AuthMemory → AuthMemory
revoke_session hash r = record r { sessions = delete hash r.sessions }

unfoldable pub project : String → AuthMemory → Option ProjectView
project id r = lookup id r.projects

abbrev pub is_positive : ℤ → Bool
is_positive (pos zero) = false
is_positive (pos (suc n)) = true
is_positive (negsuc n) = false

abbrev pub renamed : String → ℤ → ProjectView → ProjectView
renamed name retention v = record v {
  name = if name == "" then v.name else name;
  retention_days = if is_positive retention then retention else v.retention_days;
}

abbrev pub in_project : ProjectView → IdentityRecord → IdentityRecord
in_project v u = record u { project_name = v.name; retention_days = v.retention_days }

-- the loop over the users of a project
unfoldable pub rename_users :
    String → ProjectView → Table Digest IdentityRecord → Table Digest IdentityRecord
rename_users id v [] = []
rename_users id v ((hash, u) ∷ users) =
    (hash, if u.project_id == id then in_project v u else u) ∷ rename_users id v users

unfoldable pub update_project : String → String → ℤ → AuthMemory → Option ProjectView × AuthMemory
unfolding rename_users
update_project id name retention r = elim (lookup id r.projects) [
  | none ↦ (none, r)
  | some found ↦
      let v = renamed name retention found in
      (some v, record r { projects = insert id v r.projects; users = rename_users id v r.users })
]

unfoldable pub environments : String → AuthMemory → List Environment
environments id r = get_or id [] r.environments

-- the first environment with an id
unfoldable pub find_environment : String → List Environment → Option Environment
find_environment id [] = none
find_environment id (item ∷ items) = if item.id == id then some item else find_environment id items

abbrev pub chosen : String → Environment → Environment
chosen id item = record item { is_default = item.id == id }

unfoldable pub select_environment : String → String → AuthMemory → Option Environment × AuthMemory
unfolding find_environment
select_environment project_id id r =
    let items = get_or project_id [] r.environments in
    elim (find_environment id items) [
      | none ↦ (none, r)
      | some found ↦
          let selected = map (chosen id) items in
          (
            find_environment id selected,
            record r { environments = insert project_id selected r.environments },
          )
    ]

abbrev pub same_flag : Bool → Bool → Bool
same_flag a b = if a then b else not b

-- the loop over the findings of a project
unfoldable pub with_status : String → Table String Finding → List Finding
with_status status [] = []
with_status status ((id, v) ∷ items) =
    let rest = with_status status items in
    if status == "" || same_flag (status == "resolved") v.resolved then v ∷ rest else rest

unfoldable pub findings : String → String → AuthMemory → List Finding
unfolding with_status
findings project_id status r = with_status status (get_or project_id [] r.findings)

unfoldable pub set_finding_resolved :
    String → String → Bool → AuthMemory → Option Finding × AuthMemory
set_finding_resolved project_id id resolved r =
    let items = get_or project_id [] r.findings in
    elim (lookup id items) [
      | none ↦ (none, r)
      | some found ↦
          let v : Finding = record found { resolved = resolved } in
          (some v, record r { findings = insert project_id (insert id v items) r.findings })
    ]

-- the values of a map
abbrev pub values {ℓ} : {K V : Type ℓ} → Table K V → List V
values [] = []
values ((k, v) ∷ items) = v ∷ values items

unfoldable pub notifications : String → AuthMemory → List Notification
notifications project_id r = values (get_or project_id [] r.notifications)

unfoldable pub mark_notification_read :
    Time → String → String → AuthMemory → Option Notification × AuthMemory
mark_notification_read now project_id id r =
    let items = get_or project_id [] r.notifications in
    elim (lookup id items) [
      | none ↦ (none, r)
      | some found ↦
          let v : Notification = record found { read_at = some now } in
          (
            some v,
            record r { notifications = insert project_id (insert id v items) r.notifications },
          )
    ]

abbrev pub read_now : Time → Notification → Notification
read_now now v = record v { read_at = elim v.read_at [ none ↦ some now | some at ↦ some at ] }

-- the loop over the notifications of a project: those that were unread, and what is left
unfoldable pub mark_all : Time → Table String Notification → ℕ × Table String Notification
mark_all now [] = (0, [])
mark_all now ((id, v) ∷ items) =
    let (count, rest) = mark_all now items in
    (elim v.read_at [ none ↦ suc count | some at ↦ count ], (id, read_now now v) ∷ rest)

unfoldable pub mark_all_notifications_read : Time → String → AuthMemory → ℕ × AuthMemory
unfolding mark_all
mark_all_notifications_read now project_id r = elim (lookup project_id r.notifications) [
  | none ↦ (0, r)
  | some items ↦
      let (count, marked) = mark_all now items in
      (count, record r { notifications = insert project_id marked r.notifications })
]

abbrev pub changed {ℓ κ} : {A : Type ℓ} {S : Type κ} → A × S → Try A × S
changed (a, s) = (ok a, s)

-- The storage behind the port. `list_connections` is the connection lister of the constructor, if
-- there is one. Auditing keeps nothing.
unfoldable pub auth_memory_repository :
    Option (String → Try (List StripeConnection)) → Repository AuthMemory
unfolding register user_by_email_hash create_session session revoke_session project update_project
    environments select_environment findings set_finding_resolved notifications
    mark_notification_read mark_all_notifications_read
auth_memory_repository list_connections = record {
  register = register;
  user_by_email_hash = λ hash r. ok (user_by_email_hash hash r);
  create_session = λ s r. (none, create_session s r);
  session = λ hash r. ok (session hash r);
  revoke_session = λ hash r. (none, revoke_session hash r);
  project = λ id r. ok (project id r);
  update_project = λ id name retention user_id r. changed (update_project id name retention r);
  environments = λ id r. ok (environments id r);
  select_environment = λ project_id id user_id r. changed (select_environment project_id id r);
  findings = λ project_id status r. ok (findings project_id status r);
  set_finding_resolved =
      λ project_id id resolved user_id r. changed (set_finding_resolved project_id id resolved r);
  notifications = λ project_id r. ok (notifications project_id r);
  mark_notification_read =
      λ now project_id id user_id r. changed (mark_notification_read now project_id id r);
  mark_all_notifications_read =
      λ now project_id user_id r. changed (mark_all_notifications_read now project_id r);
  connections =
      λ project_id r. elim list_connections [ none ↦ ok [] | some lister ↦ lister project_id ];
  record_audit = λ project_id user_id action kind id metadata r. (none, r);
}
