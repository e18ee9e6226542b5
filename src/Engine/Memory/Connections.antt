-- ===== src/Engine/Memory/Connections.antt =====
-- memory_repository.go: the Stripe connections. A copy of the ciphertext is the ciphertext itself.
pub mod Ownership
use parity_lab.Prelude.{
  String, Bool, true, false, List, [], ◌∷◌, ◌==◌, string_eq, if◌then◌else◌, ◌&&◌, not, ltb,
}
use parity_lab.Prelude.Table.{Table, insert, get_or, has}
use parity_lab.Engine.Records.{StripeConnection}
use parity_lab.Engine.Memory.{MemoryRepository}

-- `StripeConnection{}`
abbrev pub zero_connection : StripeConnection
zero_connection = record {
  id = "";
  stripe_account_id = "";
  sandbox_name = "";
  status = "";
  created_at = 0;
  secret_ciphertext = [];
  secret_encryption_key_id = 0;
}

-- the loop that takes over the id and the creation time of a stored connection of the same account,
-- among the ids that pass a test
unfoldable pub adopt :
    (String → Bool) → Table String StripeConnection → StripeConnection → StripeConnection
adopt wanted [] connection = connection
adopt wanted ((id, existing) ∷ connections) connection = adopt wanted connections (
    if wanted id && existing.stripe_account_id == connection.stripe_account_id
    then record connection { id = id; created_at = existing.created_at }
    else connection)

unfoldable pub save_stripe_connection :
    StripeConnection → MemoryRepository → StripeConnection × MemoryRepository
unfolding adopt
save_stripe_connection connection r =
    let saved = adopt (λ id. true) r.connections connection in
    (saved, record r { connections = insert saved.id saved r.connections })

unfoldable pub stripe_connection : String → MemoryRepository → StripeConnection × Bool
stripe_connection id r = (get_or id zero_connection r.connections, has id r.connections)

unfoldable pub save_stripe_connection_for_project :
    String → StripeConnection → MemoryRepository → StripeConnection × MemoryRepository
unfolding adopt
save_stripe_connection_for_project project_id connection r =
    let saved =
      adopt (λ id. get_or id "" r.project_by_connection == project_id) r.connections connection in
    (
      saved,
      record r {
        connections = insert saved.id saved r.connections;
        project_by_connection = insert saved.id project_id r.project_by_connection;
      },
    )

unfoldable pub stripe_connection_for_project :
    String → String → MemoryRepository → StripeConnection × Bool
unfolding stripe_connection
stripe_connection_for_project project_id id r =
    if not (get_or id "" r.project_by_connection == project_id)
    then (zero_connection, false)
    else stripe_connection id r

-- `sort.Slice` by `CreatedAt`, the latest first; equal times keep the map's order
unfoldable pub insert_latest : StripeConnection → List StripeConnection → List StripeConnection
insert_latest connection [] = connection ∷ []
insert_latest connection (other ∷ connections) =
    if ltb connection.created_at other.created_at
    then other ∷ insert_latest connection connections
    else connection ∷ other ∷ connections

unfoldable pub latest_first :
    (String → Bool) → Table String StripeConnection → List StripeConnection
unfolding insert_latest
latest_first wanted [] = []
latest_first wanted ((id, connection) ∷ connections) =
    let rest = latest_first wanted connections in
    if wanted id then insert_latest (record connection { secret_ciphertext = [] }) rest else rest

unfoldable pub list_stripe_connections_for_project :
    String → MemoryRepository → List StripeConnection
unfolding latest_first
list_stripe_connections_for_project project_id r =
    latest_first (λ id. get_or id "" r.project_by_connection == project_id) r.connections
