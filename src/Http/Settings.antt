-- ===== src/Http/Settings.antt =====
-- httpapi/auth_routes.go: the handlers of a project's settings, environments, findings, notifications and
-- connections. They have the storage, since a session is granted only with one.
use parity_lab.Prelude.{ℕ, String, Bool, true, false, List, Option, none, some}
use parity_lab.Prelude.Text.Numerals.{ℤ}
use parity_lab.Domain.{Time, Finding}
use parity_lab.Engine.Records.{StripeConnection}
use parity_lab.Engine.Service.{Answer, success, failure}
use parity_lab.Auth.{ProjectView, SessionView, Environment, Notification, Repository}
use parity_lab.Auth.Service.{AuthLibrary, Service}
use parity_lab.Auth.Service.Projects as Projects
use parity_lab.Http.Requests.{Request, Response, empty, write_error, respond, decode_json_body}
use parity_lab.Http.Reads.{require_session}

pub record UpdateProjectRequest : Type 0 where
  pub name : String
  pub retention_days : ℤ

-- an operation that changes nothing, or that may
abbrev keeps : {S A : Type 0} → (SessionView → S → Answer A) → SessionView → S → Answer A × S
keeps operation identity s = (operation identity s, s)

module _ {S : Type 0} (lib : AuthLibrary) (now : Time) (auth : Option (Service S))
    (repo : Repository S) where
  -- an operation of the session's project, behind `requireSession`
  unfoldable pub with_session :
      {A : Type 0} → (SessionView → S → Answer A × S) → Request → S → Response A × S
  with_session operation req s = elim auth [
    | none ↦ (empty 200, s)
    | some service ↦ elim (require_session lib now service req s) [
      | failure e ↦ (write_error req e, s)
      | success identity ↦
          let (answer, after) = operation identity s in (respond 200 req answer, after)
    ]
  ]

  abbrev pub project_settings : Request → S → Response ProjectView × S
  project_settings = with_session (keeps (λ identity. Projects.project repo identity.project.id))

  -- the body is read after the session
  abbrev update_with : Answer UpdateProjectRequest → SessionView → S → Answer ProjectView × S
  update_with (failure e) identity s = (failure e, s)
  update_with (success input) identity s =
      Projects.update_project repo identity input.name input.retention_days s

  abbrev pub update_project_settings :
      (String → Option (UpdateProjectRequest × Bool)) → Request → S → Response ProjectView × S
  update_project_settings decode req = with_session (update_with (decode_json_body decode req)) req

  abbrev pub environments : Request → S → Response (List Environment) × S
  environments = with_session (keeps (λ identity. Projects.environments repo identity.project.id))

  abbrev pub select_environment : Request → S → Response Environment × S
  select_environment req =
      with_session (λ identity. Projects.select_environment repo identity req.path_value) req

  -- `status` is the query's
  abbrev pub findings : String → Request → S → Response (List Finding) × S
  findings status =
      with_session (keeps (λ identity. Projects.findings repo identity.project.id status))

  abbrev pub set_finding_resolution : Bool → Request → S → Response Finding × S
  set_finding_resolution resolved req =
      with_session (λ identity. Projects.set_finding_resolved repo identity req.path_value resolved)
        req

  abbrev pub resolve_finding : Request → S → Response Finding × S
  resolve_finding = set_finding_resolution true

  abbrev pub reopen_finding : Request → S → Response Finding × S
  reopen_finding = set_finding_resolution false

  abbrev pub notifications : Request → S → Response (List Notification) × S
  notifications = with_session (keeps (λ identity. Projects.notifications repo identity.project.id))

  abbrev pub read_notification : Request → S → Response Notification × S
  read_notification req =
      with_session (λ identity. Projects.mark_notification_read repo now identity req.path_value)
        req

  abbrev pub read_all_notifications : Request → S → Response ℕ × S
  read_all_notifications =
      with_session (λ identity. Projects.mark_all_notifications_read repo now identity)

  abbrev pub connections : Request → S → Response (List StripeConnection) × S
  connections = with_session (keeps (λ identity. Projects.connections repo identity.project.id))
