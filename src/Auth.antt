-- ===== src/Auth.antt =====
-- auth/models.go: the values of accounts, sessions and projects, and the port to their storage. A
-- retention is an integer, since a request can carry a negative one.
pub mod Memory
pub mod Password
pub mod Service
use parity_lab.Prelude.{ℕ, String, Bytes, Bool, true, false, List, Option}
pub use parity_lab.Prelude.Text.Numerals.{ℤ, pos, negsuc}
use parity_lab.Prelude.Table.{Table}
use parity_lab.Failure.{Failure, Try}
use parity_lab.Domain.{Time, Finding, Value}
use parity_lab.Engine.Records.{Digest, StripeConnection}

pub record User : Type 0 where
  pub id : String
  pub email_ciphertext : Bytes
  pub email_hash : Digest
  pub password_hash : String

pub record SessionRecord : Type 0 where
  pub token_hash : Digest
  pub user_id : String
  pub project_id : String
  pub expires_at : Time

pub record Registration : Type 0 where
  pub user : User
  pub organization_id : String
  pub organization_name : String
  pub project_id : String
  pub project_name : String
  pub retention_days : ℤ
  pub session : SessionRecord

pub record IdentityRecord : Type 0 where
  pub user_id : String
  pub email_ciphertext : Bytes
  pub password_hash : String
  pub organization_id : String
  pub organization_name : String
  pub role : String
  pub project_id : String
  pub project_name : String
  pub retention_days : ℤ
  pub session_expires_at : Time

pub record UserView : Type 0 where
  pub id : String
  pub email : String

pub record OrganizationView : Type 0 where
  pub id : String
  pub name : String
  pub role : String

pub record ProjectView : Type 0 where
  pub id : String
  pub name : String
  pub retention_days : ℤ

pub record SessionView : Type 0 where
  pub authenticated : Bool
  pub user : UserView
  pub organization : OrganizationView
  pub project : ProjectView
  pub expires_at : Time

pub record Environment : Type 0 where
  pub id : String
  pub name : String
  pub kind : String
  pub is_default : Bool

pub record Notification : Type 0 where
  pub id : String
  pub run_id : String
  pub kind : String
  pub payload : Table String Value
  pub read_at : Option Time
  pub created_at : Time

-- The port over a storage with states in `S`. A lookup answers `(value, ok)` as an option, and a change
-- answers the error, if any; the clock is read by the operations that need it.
pub record Repository (S : Type 0) : Type 0 where
  pub register : Registration → S → Option Failure × S
  pub user_by_email_hash : Digest → S → Try (Option IdentityRecord)
  pub create_session : SessionRecord → S → Option Failure × S
  pub session : Digest → S → Try (Option IdentityRecord)
  pub revoke_session : Digest → S → Option Failure × S
  pub project : String → S → Try (Option ProjectView)
  pub update_project : String → String → ℤ → String → S → Try (Option ProjectView) × S
  pub environments : String → S → Try (List Environment)
  pub select_environment : String → String → String → S → Try (Option Environment) × S
  pub findings : String → String → S → Try (List Finding)
  pub set_finding_resolved : String → String → Bool → String → S → Try (Option Finding) × S
  pub notifications : String → S → Try (List Notification)
  pub mark_notification_read : Time → String → String → String → S → Try (Option Notification) × S
  pub mark_all_notifications_read : Time → String → String → S → Try ℕ × S
  pub connections : String → S → Try (List StripeConnection)
  pub record_audit :
      String → String → String → String → String → Table String Value → S → Option Failure × S
