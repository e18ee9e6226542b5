-- ===== src/Http/Runs.antt =====
-- httpapi/handler.go: the handlers that create runs and connect Stripe. The decoders of the bodies are
-- parameters, and so are `sha256` and `strconv.Atoi`.
use parity_lab.Prelude.{
  ℕ, String, Bytes, Bool, true, false, [], ◌∷◌, Option, none, some, ◌==◌, string_eq, if◌then◌else◌,
}
use parity_lab.Prelude.Text.{◌<>◌}
use parity_lab.Prelude.Text.Numerals.{ℤ}
use parity_lab.Domain.{Time, Fault, Run}
use parity_lab.Domain.Errors.{ApiError, invalid}
use parity_lab.Engine.Records.{Digest, StripeConnection}
use parity_lab.Engine.Memory.{MemoryRepository}
use parity_lab.Engine.Service.{
  Answer, success, failure, service_create_run, service_create_run_for_project,
}
use parity_lab.Engine.Stripe.{validate_connection, validate_connection_for_project}
use parity_lab.Engine.Stripe.Payments.{
  create_payment_intent_run, create_payment_intent_run_for_project,
}
use parity_lab.Auth.Service.{AuthLibrary}
use parity_lab.Http.Requests.{
  Config, Request, idempotent_replayed, Response, json, Reply, write_error, respond,
  decode_json_body,
}
use parity_lab.Http.Reads.{require_session, viewer_of}
use parity_lab.Http.Stream.{Viewer, anyone, visitor, member}

pub record CreateRunRequest : Type 0 where
  pub scenario_id : String
  pub fault : Fault

pub record CreateStripePaymentIntentRunRequest : Type 0 where
  pub connection_id : String
  pub amount_minor : ℤ
  pub currency : String

pub record ValidateStripeConnectionRequest : Type 0 where
  pub secret_key : String
  pub sandbox_name : String

abbrev pub parameter_missing : String → ApiError
parameter_missing name =
    invalid "parameter_missing" ("The " <> name <> " parameter is required.") name

-- the body that `decodeJSONBody` returns beside the input
abbrev pub body_text : Request → String
body_text req = elim req.body [ none ↦ "" | some body ↦ body ]

-- the answer to a request for a run
abbrev pub created_run : Request → Answer (Run × Bool) → Reply Run
created_run req (failure e) = ([], write_error req e)
created_run req (success (run, true)) = (idempotent_replayed ∷ [], json 201 run)
created_run req (success (run, false)) = ([], json 201 run)

-- the input and the body of `createRun`, whose decoder may leave text behind the value
unfoldable pub read_create_run :
    (String → Option CreateRunRequest) → Request → Answer (CreateRunRequest × String)
read_create_run decode req = elim req.body [
  | none ↦ failure (invalid "request_too_large" "The request body exceeds 1 MiB." "")
  | some body ↦ elim (decode body) [
    | none ↦ failure (
        invalid "invalid_json"
          "The request body must be a valid JSON object with scenario_id and optional fault." "")
    | some input ↦
        if input.scenario_id == ""
        then failure (parameter_missing "scenario_id")
        else success (input, body)
  ]
]

-- the project of a request that has to have a session where there are accounts: "" without accounts
unfoldable pub session_project :
    {S G : Type 0} → AuthLibrary → Time → Config S G → Request → S → Answer String
session_project lib now config req s = elim config.auth [
  | none ↦ success ""
  | some auth ↦ elim (require_session lib now auth req s) [
    | failure e ↦ failure e
    | success identity ↦ success identity.project.id
  ]
]

module _ (sha256 : String → Digest) (atoi : String → Option ℕ) (now : Time) where
  abbrev pub run_for_viewer :
      Viewer
      → CreateRunRequest
      → String
      → String
      → MemoryRepository
      → Answer (Run × Bool) × MemoryRepository
  run_for_viewer (member project_id) input key body r =
      service_create_run_for_project sha256 atoi now project_id input.scenario_id input.fault key
        body r
  run_for_viewer visitor input key body r =
      service_create_run sha256 atoi now "" input.scenario_id input.fault key body r
  run_for_viewer anyone input key body r =
      service_create_run sha256 atoi now "" input.scenario_id input.fault key body r

  unfoldable pub create_run_handler :
      {S G : Type 0}
      → AuthLibrary
      → (String → Option CreateRunRequest)
      → Config S G
      → Request
      → S
      → MemoryRepository
      → Reply Run × MemoryRepository
  unfolding read_create_run write_error
  create_run_handler lib decode config req s r = elim (viewer_of lib now config.auth req s) [
    | failure e ↦ (([], write_error req e), r)
    | success viewer ↦ elim (read_create_run decode req) [
      | failure e ↦ (([], write_error req e), r)
      | success (input, body) ↦
          let (answer, after) = run_for_viewer viewer input req.idempotency_key body r in
          (created_run req answer, after)
    ]
  ]

  -- the run over a payment, of the project if there are accounts
  abbrev pub payment_run :
      {S G : Type 0}
      → Config S G
      → String
      → CreateStripePaymentIntentRunRequest
      → String
      → String
      → MemoryRepository
      → G
      → Answer (Run × Bool) × MemoryRepository × G
  payment_run config project_id input key body r g = elim config.auth [
    | none ↦
        create_payment_intent_run sha256 atoi config.stripe now "" input.connection_id
          input.amount_minor input.currency key body r g
    | some auth ↦
        create_payment_intent_run_for_project sha256 atoi config.stripe now project_id
          input.connection_id input.amount_minor input.currency key body r g
  ]

  unfoldable pub create_stripe_payment_intent_run :
      {S G : Type 0}
      → AuthLibrary
      → (String → Option (CreateStripePaymentIntentRunRequest × Bool))
      → Config S G
      → Request
      → S
      → MemoryRepository
      → G
      → Reply Run × MemoryRepository × G
  unfolding session_project decode_json_body write_error
  create_stripe_payment_intent_run lib decode config req s r g =
      elim (session_project lib now config req s) [
        | failure e ↦ (([], write_error req e), r, g)
        | success project_id ↦ elim (decode_json_body decode req) [
          | failure e ↦ (([], write_error req e), r, g)
          | success input ↦
              let (answer, after, gateway) =
                payment_run config project_id input req.idempotency_key (body_text req) r g in
              if input.connection_id == ""
              then (([], write_error req (parameter_missing "connection_id")), r, g)
              else (created_run req answer, after, gateway)
        ]
      ]

-- the connection, of the project if there are accounts
abbrev pub connection_for :
    {S G : Type 0}
    → Time
    → Option Bytes
    → Option Bytes
    → Config S G
    → String
    → ValidateStripeConnectionRequest
    → MemoryRepository
    → G
    → Answer StripeConnection × MemoryRepository × G
connection_for now drawn iv config project_id input r g = elim config.auth [
  | none ↦ validate_connection now drawn iv config.stripe "" input.secret_key input.sandbox_name r g
  | some auth ↦
      validate_connection_for_project now drawn iv config.stripe project_id input.secret_key
        input.sandbox_name r g
]

unfoldable pub validate_stripe_connection :
    {S G : Type 0}
    → AuthLibrary
    → Time
    → Option Bytes
    → Option Bytes
    → (String → Option (ValidateStripeConnectionRequest × Bool))
    → Config S G
    → Request
    → S
    → MemoryRepository
    → G
    → Response StripeConnection × MemoryRepository × G
unfolding session_project decode_json_body write_error respond
validate_stripe_connection lib now drawn iv decode config req s r g =
    elim (session_project lib now config req s) [
      | failure e ↦ (write_error req e, r, g)
      | success project_id ↦ elim (decode_json_body decode req) [
        | failure e ↦ (write_error req e, r, g)
        | success input ↦
            let (answer, after, gateway) =
              connection_for now drawn iv config project_id input r g in
            (respond 201 req answer, after, gateway)
      ]
    ]
