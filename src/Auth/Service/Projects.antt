-- ===== src/Auth/Service/Projects.antt =====
-- auth/service.go: the settings of a project, its environments, findings, notifications and connections.
-- These operations use the storage without a test for nil.
pub mod Retention
use parity_lab.Prelude.{
  ℕ, zero, suc, String, Bool, true, false, List, Option, none, some, ltb, ◌==◌, string_eq,
  if◌then◌else◌, ◌&&◌, ◌||◌, not,
}
use parity_lab.Prelude.Text.Split.{trim_space}
use parity_lab.Failure.{Try, ok, err}
use parity_lab.Domain.{Time, Finding}
use parity_lab.Domain.Errors.{ApiError, invalid, not_found, internal}
use parity_lab.Engine.Records.{StripeConnection}
use parity_lab.Engine.Service.{Answer, success, failure}
use parity_lab.Auth.{
  ℤ, pos, negsuc, ProjectView, SessionView, Environment, Notification, Repository,
}

-- a value that the storage found, or the error of the lookup or of a missing value
abbrev pub found_or : {A : Type 0} → ApiError → ApiError → Try (Option A) → Answer A
found_or failed missing (err e) = failure failed
found_or failed missing (ok none) = failure missing
found_or failed missing (ok (some a)) = success a

abbrev pub read_or : {A : Type 0} → ApiError → Try A → Answer A
read_or failed (err e) = failure failed
read_or failed (ok a) = success a

abbrev pub is_zero : ℤ → Bool
is_zero (pos zero) = true
is_zero (pos (suc n)) = false
is_zero (negsuc n) = false

-- `n < 1 || n > 3650`
abbrev pub out_of_range : ℤ → Bool
out_of_range (pos n) = ltb n 1 || ltb 3650 n
out_of_range (negsuc n) = true

module _ {S : Type 0} (repo : Repository S) where
  unfoldable pub project : String → S → Answer ProjectView
  project project_id s =
      found_or (internal "project_lookup_failed" "The project could not be loaded.")
        (not_found "project" project_id) (repo.project project_id s)

  unfoldable pub update_project : SessionView → String → ℤ → S → Answer ProjectView × S
  update_project identity given_name retention_days s =
      let name = trim_space given_name in
      let (answer, updated) =
        repo.update_project identity.project.id name retention_days identity.user.id s in
      if name == "" && is_zero retention_days
      then (failure (invalid "parameter_missing" "name or retention_days is required." ""), s)
      else if ltb 120 (Prim.Native.String.len name)
      then (
        failure (invalid "invalid_project_name" "name must be at most 120 characters." "name"),
        s,
      )
      else if not (is_zero retention_days) && out_of_range retention_days
      then (
        failure (
            invalid "invalid_retention_days" "retention_days must be between 1 and 3650."
              "retention_days"),
        s,
      )
      else (
        found_or (internal "project_update_failed" "The project could not be updated.")
            (not_found "project" identity.project.id) answer,
        updated,
      )

  unfoldable pub environments : String → S → Answer (List Environment)
  environments project_id s =
      read_or (internal "environment_lookup_failed" "Environments could not be loaded.")
        (repo.environments project_id s)

  unfoldable pub select_environment : SessionView → String → S → Answer Environment × S
  select_environment identity id s =
      let (answer, updated) = repo.select_environment identity.project.id id identity.user.id s in
      (
        found_or (internal "environment_update_failed" "The environment could not be selected.")
            (not_found "environment" id) answer,
        updated,
      )

  unfoldable pub findings : String → String → S → Answer (List Finding)
  findings project_id given_status s =
      let status = if given_status == "all" then "" else given_status in
      if not (status == "") && not (status == "open") && not (status == "resolved")
      then failure (invalid "invalid_status" "status must be open, resolved, or all." "status")
      else read_or (internal "finding_lookup_failed" "Findings could not be loaded.")
          (repo.findings project_id status s)

  unfoldable pub set_finding_resolved : SessionView → String → Bool → S → Answer Finding × S
  set_finding_resolved identity id resolved s =
      let (answer, updated) =
        repo.set_finding_resolved identity.project.id id resolved identity.user.id s in
      (
        found_or (internal "finding_update_failed" "The finding could not be updated.")
            (not_found "finding" id) answer,
        updated,
      )

  unfoldable pub notifications : String → S → Answer (List Notification)
  notifications project_id s =
      read_or (internal "notification_lookup_failed" "Notifications could not be loaded.")
        (repo.notifications project_id s)

  unfoldable pub mark_notification_read : Time → SessionView → String → S → Answer Notification × S
  mark_notification_read now identity id s =
      let (answer, updated) =
        repo.mark_notification_read now identity.project.id id identity.user.id s in
      (
        found_or (internal "notification_update_failed" "The notification could not be updated.")
            (not_found "notification" id) answer,
        updated,
      )

  unfoldable pub mark_all_notifications_read : Time → SessionView → S → Answer ℕ × S
  mark_all_notifications_read now identity s =
      let (answer, updated) =
        repo.mark_all_notifications_read now identity.project.id identity.user.id s in
      (
        read_or (internal "notification_update_failed" "Notifications could not be updated.")
            answer,
        updated,
      )

  unfoldable pub connections : String → S → Answer (List StripeConnection)
  connections project_id s =
      read_or (internal "connection_lookup_failed" "Connections could not be loaded.")
        (repo.connections project_id s)
