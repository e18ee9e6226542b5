-- ===== src/Engine/Stripe/Connecting.antt =====
-- stripe_service.go: a connection that was validated and stored, and a run that is charged over it.
use parity_lab.Prelude.{
  ℕ, String, Bytes, Bool, true, [], ◌∷◌, Option, some, ◌==◌, string_eq, eq_iff, ◌&&◌, ◌++◌, length,
  ◌≡◌, refl, ap, ◌∙◌, arith, inl, inr, Bool-cases,
}
use parity_lab.Prelude.Text.Numerals.{ℤ}
use parity_lab.Prelude.Text.Split.{trim_space}
use parity_lab.Prelude.Text.Trimming.{trim_space-trim_space}
use parity_lab.Prelude.Table.{Table, insert, get_or, lookup-insert_self}
use parity_lab.Failure.{ok}
use parity_lab.Domain.{Time}
use parity_lab.Secrets.{Cipher, Unseals, encrypt, decrypt, decrypt-encrypt}
use parity_lab.Engine.Records.{Digest, StripeConnection}
use parity_lab.Engine.Memory.{MemoryRepository}
use parity_lab.Engine.Memory.Connections.{
  adopt, save_stripe_connection, stripe_connection, save_stripe_connection_for_project,
}
use parity_lab.Engine.Memory.Connections.Ownership.{save_stripe_connection_for_project-IsOwned}
use parity_lab.Engine.Memory.Runs.{next_run_id}
use parity_lab.Engine.Service.{Answer, success}
use parity_lab.Engine.Service.Ingress.{has_prefix}
use parity_lab.Engine.Stripe.{
  StripeAccount, StripeGateway, save_for, connection_of, store_connection, validate_connection,
  validate_sandbox_secret,
}
use parity_lab.Engine.Stripe.Intents.{is_uuid, load_for, params_of}
use parity_lab.Engine.Stripe.Payments.{charge, charge_connection, find_and_charge, persist_intent}
use parity_lab.Engine.Stripe.Identifiers.{AreBytes, random_uuid-is_uuid}

-- every stored connection has an id of the form that a request may name
abbrev pub AreIds : Table String StripeConnection → Type 0
AreIds [] = Unit
AreIds ((id, connection) ∷ connections) = (is_uuid id ≡ true) × AreIds connections

insert-AreIds :
    (id : String) (connection : StripeConnection) (connections : Table String StripeConnection)
    → is_uuid id ≡ true
    → AreIds connections
    → AreIds (insert id connection connections)
unfolding insert
insert-AreIds id connection [] known h = (known, tt)
insert-AreIds id connection ((other, stored) ∷ connections) known h =
    elim (Bool-cases (other == id)) [
      | inl same ↦ rw (same, insert) (known, h.1)
      | inr different ↦
          rw (different, insert) (h.0, insert-AreIds id connection connections known h.1)
    ]

-- a connection that may have taken over the id of a stored one
record IsAdopted (connection saved : StripeConnection) : Type 0 where
  account : saved.stripe_account_id ≡ connection.stripe_account_id
  secret : saved.secret_ciphertext ≡ connection.secret_ciphertext
  status : saved.status ≡ connection.status
  known : is_uuid saved.id ≡ true

adopt-IsAdopted :
    (wanted : String → Bool) (connections : Table String StripeConnection)
    (connection : StripeConnection)
    → AreIds connections
    → is_uuid connection.id ≡ true
    → IsAdopted connection (adopt wanted connections connection)
unfolding adopt
adopt-IsAdopted wanted [] connection h known = record {
  account = refl;
  secret = refl;
  status = refl;
  known = known;
}
adopt-IsAdopted wanted ((id, stored) ∷ connections) connection h known =
    elim (Bool-cases (wanted id && stored.stripe_account_id == connection.stripe_account_id)) [
      | inl takes ↦
          let over : StripeConnection = record connection {
            id = id;
            created_at = stored.created_at;
          } in
          let a = adopt-IsAdopted wanted connections over h.1 h.0 in
          rw (takes, adopt)
            (record { account = a.account; secret = a.secret; status = a.status; known = a.known })
      | inr keeps ↦ rw (keeps, adopt) (adopt-IsAdopted wanted connections connection h.1 known)
    ]

-- what a project stores, it loads
record IsSaved (project_id : String) (connection : StripeConnection)
    (out : StripeConnection × MemoryRepository) : Type 0 where
  adopted : IsAdopted connection out.0
  loads : load_for project_id out.0.id out.1 ≡ (out.0, true)
  ids : AreIds out.1.connections

save_for-IsSaved :
    (project_id : String) (connection : StripeConnection) (r : MemoryRepository)
    → AreIds r.connections
    → is_uuid connection.id ≡ true
    → IsSaved project_id connection (save_for project_id connection r)
unfolding save_stripe_connection save_stripe_connection_for_project stripe_connection
save_for-IsSaved project_id connection r h known = elim (Bool-cases (project_id == "")) [
  | inl shared ↦
      let a = adopt-IsAdopted (λ id. true) r.connections connection h known in
      let saved = adopt (λ id. true) r.connections connection in
      rw shared (record {
        adopted = a;
        loads = ground (arith, lookup-insert_self saved.id saved r.connections);
        ids = insert-AreIds saved.id saved r.connections a.known h;
      })
  | inr owned ↦
      let wanted : String → Bool = λ id. get_or id "" r.project_by_connection == project_id in
      let a = adopt-IsAdopted wanted r.connections connection h known in
      let saved = adopt wanted r.connections connection in
      rw owned (record {
        adopted = a;
        loads = rw owned (save_stripe_connection_for_project-IsOwned project_id connection r).reads;
        ids = insert-AreIds saved.id saved r.connections a.known h;
      })
]

module _ (sha256 : String → Digest) (atoi : String → Option ℕ) {G : Type 0}
    (gateway : StripeGateway G) (cipher : Cipher) (project_id secret : String) where
  -- what a validated connection is good for: for a request over it, whose checks are done, Stripe is asked for
  -- the payment with the secret that was given; and the stored ids keep their form
  pub record IsUsable (out : Answer StripeConnection × MemoryRepository × G) : Type 0 where
    pub saved : StripeConnection
    pub answered : out.0 ≡ success saved
    pub charges :
        (later : Time) (amount : ℤ) (currency key : String) (request_hash : Digest) (g : G)
        → find_and_charge sha256 atoi gateway cipher later project_id saved.id amount currency key
            request_hash out.1 g
          ≡ persist_intent sha256 atoi later project_id request_hash amount currency key
              (next_run_id out.1).0
              (gateway.create_payment_intent
                (trim_space secret)
                (params_of sha256 amount currency key)
                g)
              (next_run_id out.1).1
    pub ids : AreIds out.1.connections

  saved-IsUsable :
      (connection : StripeConnection) (out : StripeConnection × MemoryRepository) (g : G)
      → IsSaved project_id connection out
      → connection.status ≡ "connected"
      → validate_sandbox_secret (trim_space secret) ≡ ok tt
      → decrypt cipher connection.secret_ciphertext connection.stripe_account_id
        ≡ ok (trim_space secret)
      → IsUsable (success out.0, out.1, g)
  unfolding find_and_charge charge_connection charge
  saved-IsUsable connection out g s connected sandbox opens =
      let saved = out.0 in
      let opened : decrypt cipher saved.secret_ciphertext saved.stripe_account_id
          ≡ ok (trim_space secret) =
        ap (λ c. decrypt cipher c saved.stripe_account_id) s.adopted.secret
        ∙ ap (decrypt cipher connection.secret_ciphertext) s.adopted.account
        ∙ opens in
      let is : (saved.status == "connected") ≡ true =
        (eq_iff saved.status "connected").1 (s.adopted.status ∙ connected) in
      record {
        saved = saved;
        answered = refl;
        charges = λ later amount currency key request_hash g'.
            rw
              (
                s.adopted.known, s.loads, is, opened, sandbox, find_and_charge, charge_connection,
                charge,
              )
              refl;
        ids = s.ids;
      }

  -- A secret of the sandbox whose account Stripe confirms is stored as a connection; and for every later
  -- request over that connection that is looked up, Stripe is asked for the payment with that secret,
  -- trimmed. The conditions are that the service is configured, that the random draws succeed with
  -- sixteen bytes and a nonce of the cipher's length, that the cipher unseals what it sealed for the
  -- account, and that the stored connections have ids of the form of those that are drawn, which the
  -- new state keeps.
  pub validate_connection-IsUsable :
      (now : Time) (drawn nonce : Bytes) (sandbox_name : String) (account : StripeAccount)
      (r : MemoryRepository) (g : G)
      → AreBytes drawn
      → length drawn ≡ 16
      → length nonce ≡ cipher.aead.nonce_size
      → Unseals cipher.aead nonce (trim_space secret) account.id
      → validate_sandbox_secret secret ≡ ok tt
      → (gateway.validate_account (trim_space secret) g).0 ≡ ok account
      → has_prefix account.id "acct_" ≡ true
      → AreIds r.connections
      → IsUsable (
          validate_connection now
            (some drawn)
            (some nonce)
            (record { gateway = some gateway; cipher = some cipher })
            project_id
            secret
            sandbox_name
            r
            g)
  unfolding validate_connection store_connection encrypt validate_sandbox_secret
  validate_connection-IsUsable now drawn nonce sandbox_name account r g bytes sixteen size law
        sandbox confirmed prefixed ids =
      let again : validate_sandbox_secret (trim_space secret) ≡ validate_sandbox_secret secret =
        rw (trim_space-trim_space secret, validate_sandbox_secret) refl in
      let (id, drew, known) = random_uuid-is_uuid drawn bytes sixteen in
      let sealed = nonce ++ cipher.aead.seal nonce (trim_space secret) account.id in
      let connection = connection_of now id account sandbox_name sealed in
      let asked = gateway.validate_account (trim_space secret) g in
      let u =
        saved-IsUsable connection (save_for project_id connection r) asked.1
          (save_for-IsSaved project_id connection r ids known) refl (again ∙ sandbox)
          (decrypt-encrypt cipher nonce (trim_space secret) account.id sealed law size refl) in
      rw (sandbox, confirmed, prefixed, drew, validate_connection, store_connection) u
