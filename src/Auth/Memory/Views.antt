-- ===== src/Auth/Memory/Views.antt =====
-- What a user, a session and a project read after a change.
use parity_lab.Prelude.{
  String, Bool, false, [], ◌∷◌, none, some, string_eq, bytes_eq, ◌==◌, ◌≡◌, refl, arith, inl, inr,
  Bool-cases, if◌then◌else◌, ◌&&◌,
}
use parity_lab.Prelude.Table.{Table, lookup, insert}
use parity_lab.Domain.{Time}
use parity_lab.Engine.Records.{Digest}
use parity_lab.Auth.{SessionRecord, IdentityRecord, ProjectView}
use parity_lab.Auth.Memory.{user_of, rename_users, in_project}

-- `u` is the user that a session names
abbrev pub names : SessionRecord → IdentityRecord → Bool
names s u = u.user_id == s.user_id && u.project_id == s.project_id

abbrev pub until : Time → IdentityRecord → IdentityRecord
until t u = record u { session_expires_at = t }

pub lookup-rename_users :
    (hash : Digest) (id : String) (v : ProjectView) (users : Table Digest IdentityRecord)
    → lookup hash (rename_users id v users) ≡ elim (lookup hash users) [
      | none ↦ none
      | some u ↦ some (if u.project_id == id then in_project v u else u)
    ]
unfolding lookup rename_users
lookup-rename_users hash id v [] = refl
lookup-rename_users hash id v ((other, u) ∷ users) =
    ground (arith, lookup-rename_users hash id v users)

-- A new user that no other one precedes is the one that a session finds.
pub user_of-insert :
    (s : SessionRecord) (hash : Digest) (u : IdentityRecord) (users : Table Digest IdentityRecord)
    → lookup hash users ≡ none
    → user_of s users ≡ none
    → user_of s (insert hash u users) ≡ (if names s u then some (until s.expires_at u) else none)
unfolding user_of insert lookup
user_of-insert s hash u [] new unknown = refl
user_of-insert s hash u ((other, first) ∷ users) new unknown = elim (Bool-cases (other == hash)) [
  | inl same ↦ ground (arith, same)
  | inr different ↦ elim (Bool-cases (names s first)) [
    | inl known ↦ ground (arith, known)
    | inr unnamed ↦ ground (arith, different, unnamed, user_of-insert s hash u users)
  ]
]

-- and the other sessions find whom they found
pub user_of-insert_other :
    (s : SessionRecord) (hash : Digest) (u : IdentityRecord) (users : Table Digest IdentityRecord)
    → lookup hash users ≡ none
    → names s u ≡ false
    → user_of s (insert hash u users) ≡ user_of s users
unfolding user_of insert lookup
user_of-insert_other s hash u [] new other_user = ground arith
user_of-insert_other s hash u ((other, first) ∷ users) new other_user =
    elim (Bool-cases (other == hash)) [
      | inl same ↦ ground (arith, same)
      | inr different ↦ elim (Bool-cases (names s first)) [
        | inl known ↦ ground (arith, different, known)
        | inr unnamed ↦ ground (arith, different, unnamed, user_of-insert_other s hash u users)
      ]
    ]
