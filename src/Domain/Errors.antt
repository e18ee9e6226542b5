-- ===== src/Domain/Errors.antt =====
-- services/api/internal/domain/errors.go: the errors of the API. The request id is filled in by the
-- transport, and `%q` quotes a text between double quotes (its escapes are not modelled).
use parity_lab.Prelude.{ℕ, String}
use parity_lab.Prelude.Text.{◌<>◌}

pub record ApiError : Type 0 where
  pub type : String
  pub code : String
  pub message : String
  pub param : String
  pub request_id : String
  pub http_status : ℕ

abbrev pub api_error : String → String → String → String → ℕ → ApiError
api_error type code message param http_status = record {
  type = type;
  code = code;
  message = message;
  param = param;
  request_id = "";
  http_status = http_status;
}

abbrev pub quoted : String → String
quoted s = "\"" <> s <> "\""

unfoldable pub invalid : String → String → String → ApiError
invalid code message param = api_error "invalid_request_error" code message param 400

unfoldable pub not_found : String → String → ApiError
not_found resource id =
    api_error "invalid_request_error" (resource <> "_not_found")
      ("No " <> resource <> " exists with id " <> quoted id <> ".") (resource <> "_id") 404

unfoldable pub conflict : String → String → String → ApiError
conflict code message param = api_error "idempotency_error" code message param 409

unfoldable pub internal : String → String → ApiError
internal code message = api_error "api_error" code message "" 500

unfoldable pub unauthorized : String → String → ApiError
unauthorized code message = api_error "authentication_error" code message "" 401

unfoldable pub forbidden : String → String → ApiError
forbidden code message = api_error "permission_error" code message "" 403
