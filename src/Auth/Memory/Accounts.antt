-- ===== src/Auth/Memory/Accounts.antt =====
-- Registration, and the sessions that it and a logout leave.
use parity_lab.Prelude.{
  String, true, false, none, some, string_eq, bytes_eq, bytes_beq_iff, ◌≡◌, ◌≢◌, ◌⊎◌, refl, sym, ap,
  ◌∙◌, arith, inl, inr, Option-cases,
}
use parity_lab.Prelude.Table.{lookup, insert, lookup-insert_ne, lookup-insert_self, lookup-delete}
use parity_lab.Failure.{account_exists}
use parity_lab.Engine.Records.{Digest}
use parity_lab.Auth.{SessionRecord, IdentityRecord, Registration}
use parity_lab.Auth.Memory.{
  AuthMemory, user_of, register, session, revoke_session, user_by_email_hash, project, environments,
  identity_of, project_of, first_environments,
}
use parity_lab.Auth.Memory.Views.{names, until, user_of-insert, user_of-insert_other}

-- the ids and the token of a registration are new: no session names its user, and its session names no
-- other user
pub record IsFresh (input : Registration) (r : AuthMemory) : Type 0 where
  pub user : user_of input.session r.users ≡ none
  pub sessions :
      (hash : Digest) (s : SessionRecord)
      → lookup hash r.sessions ≡ some s
      → names s (identity_of input) ≡ false

-- what a new account reads, and what the other accounts and sessions read as before
pub record IsRegistered (input : Registration) (r r' : AuthMemory) : Type 0 where
  pub account : user_by_email_hash input.user.email_hash r' ≡ some (identity_of input)
  pub signed_in :
      session input.session.token_hash r'
      ≡ some (until input.session.expires_at (identity_of input))
  pub owns : project input.project_id r' ≡ some (project_of input)
  pub starts_with : environments input.project_id r' ≡ first_environments input.project_id
  pub other_accounts :
      (hash : Digest)
      → hash ≢ input.user.email_hash
      → user_by_email_hash hash r' ≡ user_by_email_hash hash r
  pub other_sessions :
      (hash : Digest) → hash ≢ input.session.token_hash → session hash r' ≡ session hash r
  pub other_projects : (id : String) → id ≢ input.project_id → project id r' ≡ project id r

-- a registration under a new email is stored
pub register_new :
    (input : Registration) (r : AuthMemory)
    → user_by_email_hash input.user.email_hash r ≡ none
    → ((register input r).0 ≡ none)
      × (user_by_email_hash input.user.email_hash (register input r).1 ≡ some (identity_of input))
unfolding register user_by_email_hash
register_new input r new = (
  rw (new, register) refl,
  rw (new, register) (lookup-insert_self input.user.email_hash (identity_of input) r.users),
)

module _ (input : Registration) (r : AuthMemory) (fresh : IsFresh input r)
    (own : names input.session (identity_of input) ≡ true)
    (new : lookup input.user.email_hash r.users ≡ none) where
  abbrev opened : AuthMemory
  opened = record r {
    users = insert input.user.email_hash (identity_of input) r.users;
    sessions = insert input.session.token_hash input.session r.sessions;
    projects = insert input.project_id (project_of input) r.projects;
    environments = insert input.project_id (first_environments input.project_id) r.environments;
  }

  register-opened : register input r ≡ (none, opened)
  unfolding register
  register-opened = rw (new, register) refl

  signed_in_lem :
      session input.session.token_hash opened
      ≡ some (until input.session.expires_at (identity_of input))
  unfolding session
  signed_in_lem =
      rw (session, lookup-insert_self input.session.token_hash input.session r.sessions)
        (user_of-insert input.session input.user.email_hash (identity_of input) r.users new
            fresh.user
          ∙ rw own refl)

  other_sessions_lem :
      (hash : Digest) → hash ≢ input.session.token_hash → session hash opened ≡ session hash r
  unfolding session
  other_sessions_lem hash ne = elim (Option-cases (lookup hash r.sessions)) [
    | inl missing ↦
        rw
          (
            session,
            lookup-insert_ne input.session.token_hash hash input.session r.sessions ne,
            missing,
          )
          refl
    | inr (s, found) ↦
        rw
          (
            session,
            lookup-insert_ne input.session.token_hash hash input.session r.sessions ne,
            found,
          )
          (user_of-insert_other s input.user.email_hash (identity_of input) r.users new
            (fresh.sessions hash s found))
  ]

  opened-IsRegistered : IsRegistered input r opened
  unfolding user_by_email_hash project environments
  opened-IsRegistered = record {
    account = lookup-insert_self input.user.email_hash (identity_of input) r.users;
    signed_in = signed_in_lem;
    owns = lookup-insert_self input.project_id (project_of input) r.projects;
    starts_with = ground (
      arith,
      lookup-insert_self input.project_id (first_environments input.project_id) r.environments,
    );
    other_accounts =
        λ hash ne. lookup-insert_ne input.user.email_hash hash (identity_of input) r.users ne;
    other_sessions = other_sessions_lem;
    other_projects = λ id ne. lookup-insert_ne input.project_id id (project_of input) r.projects ne;
  }

-- A registration under an email in use is refused and changes nothing. Any other one opens the account:
-- its email finds it, its token finds its session, and it has its project with the first
-- environments, while the other accounts, sessions and projects read as before. The conditions are
-- that the ids are new and that the session is the new user's.
pub register_lem :
    (input : Registration) (r : AuthMemory)
    → IsFresh input r
    → names input.session (identity_of input) ≡ true
    → ((user_by_email_hash input.user.email_hash r ≢ none)
        × (register input r ≡ (some account_exists, r)))
      ⊎ ((user_by_email_hash input.user.email_hash r ≡ none)
          × ((register input r).0 ≡ none)
          × IsRegistered input r (register input r).1)
unfolding user_by_email_hash register
register_lem input r fresh own = elim (Option-cases (lookup input.user.email_hash r.users)) [
  | inl new ↦ inr (
    new,
    ap (λ p. p.0) (register-opened input r fresh own new),
    rw (register-opened input r fresh own new) (opened-IsRegistered input r fresh own new),
  )
  | inr (known, found) ↦
      inl (λ missing. absurd_some (sym found ∙ missing), rw (found, register) refl)
]
  where
    absurd_some : {u : IdentityRecord} → some u ≢ none
    absurd_some e = cc

-- After a session is revoked its token finds no session, and every other token finds what it found.
pub revoke_session_lem :
    (hash : Digest) (r : AuthMemory)
    → (session hash (revoke_session hash r) ≡ none)
      × ((other : Digest) → other ≢ hash → session other (revoke_session hash r) ≡ session other r)
unfolding session revoke_session
revoke_session_lem hash r = (
  ground (arith, lookup-delete hash hash r.sessions, bytes_beq_iff hash hash),
  λ other ne. ground (arith, lookup-delete hash other r.sessions, bytes_beq_iff hash other),
)
