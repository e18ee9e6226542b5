-- ===== src/Engine/Memory/Connections/Ownership.antt =====
-- A connection belongs to one project, and its secret never leaves in a list.
use parity_lab.Prelude.{
  String, Bool, true, false, List, [], ◌∷◌, string_eq, eq_iff, ◌≡◌, ◌≢◌, refl, arith, All, inl, inr,
  Bool-cases, ltb,
}
use parity_lab.Prelude.Table.{Table, lookup-insert, lookup-insert_self}
use parity_lab.Engine.Records.{StripeConnection}
use parity_lab.Engine.Memory.{MemoryRepository}
use parity_lab.Engine.Memory.Connections.{
  zero_connection, save_stripe_connection_for_project, stripe_connection_for_project, insert_latest,
  latest_first, list_stripe_connections_for_project,
}

-- what is read after a project saved a connection: the project reads it under the id that it was
-- given, no other project does, and under every other id every project reads what it read before
pub record IsOwned (project_id : String) (saved : StripeConnection) (r r' : MemoryRepository)
    : Type 0 where
  pub reads : stripe_connection_for_project project_id saved.id r' ≡ (saved, true)
  pub excludes :
      (other : String)
      → other ≢ project_id
      → stripe_connection_for_project other saved.id r' ≡ (zero_connection, false)
  pub elsewhere :
      (other id : String)
      → id ≢ saved.id
      → stripe_connection_for_project other id r' ≡ stripe_connection_for_project other id r

pub save_stripe_connection_for_project-IsOwned :
    (project_id : String) (connection : StripeConnection) (r : MemoryRepository)
    → let (saved, r') = save_stripe_connection_for_project project_id connection r in
      IsOwned project_id saved r r'
unfolding save_stripe_connection_for_project stripe_connection_for_project
save_stripe_connection_for_project-IsOwned project_id connection r =
    let saved = (save_stripe_connection_for_project project_id connection r).0 in
    record {
      reads = ground (
        arith,
        eq_iff project_id project_id,
        eq_iff saved.id saved.id,
        lookup-insert_self saved.id saved r.connections,
        lookup-insert_self saved.id project_id r.project_by_connection,
      );
      excludes = λ other ne. ground (
        arith,
        eq_iff project_id other,
        lookup-insert_self saved.id project_id r.project_by_connection,
      );
      elsewhere = λ other id ne. ground (
        arith,
        eq_iff saved.id id,
        lookup-insert saved.id id saved r.connections,
        lookup-insert saved.id id project_id r.project_by_connection,
      );
    }

abbrev pub HasNoSecret : StripeConnection → Type 0
HasNoSecret connection = connection.secret_ciphertext ≡ []

insert_latest-HasNoSecret :
    (connection : StripeConnection) (connections : List StripeConnection)
    → HasNoSecret connection
    → All HasNoSecret connections
    → All HasNoSecret (insert_latest connection connections)
unfolding insert_latest
insert_latest-HasNoSecret connection [] h hs = (h, tt)
insert_latest-HasNoSecret connection (other ∷ connections) h hs =
    elim (Bool-cases (ltb connection.created_at other.created_at)) [
      | inl later ↦
          rw (later, insert_latest) (hs.0, insert_latest-HasNoSecret connection connections h hs.1)
      | inr first ↦ rw (first, insert_latest) (h, hs)
    ]

latest_first-HasNoSecret :
    (wanted : String → Bool) (connections : Table String StripeConnection)
    → All HasNoSecret (latest_first wanted connections)
unfolding latest_first
latest_first-HasNoSecret wanted [] = tt
latest_first-HasNoSecret wanted ((id, connection) ∷ connections) = elim (Bool-cases (wanted id)) [
  | inl chosen ↦
      rw (chosen, latest_first)
        (insert_latest-HasNoSecret _ _ refl (latest_first-HasNoSecret wanted connections))
  | inr left ↦ rw (left, latest_first) (latest_first-HasNoSecret wanted connections)
]

-- No connection in the list of a project carries its secret.
pub list_stripe_connections_for_project-HasNoSecret :
    (project_id : String) (r : MemoryRepository)
    → All HasNoSecret (list_stripe_connections_for_project project_id r)
unfolding list_stripe_connections_for_project
list_stripe_connections_for_project-HasNoSecret project_id r =
    latest_first-HasNoSecret _ r.connections
