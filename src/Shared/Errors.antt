-- ===== src/Shared/Errors.antt =====
-- internal/shared/errors.go.
use react_go_workflow.Prelude.{ℕ, Bool, ◌||◌, List, [], ◌∷◌, Text, codes, text_eq, if◌then◌else◌}

pub record ApiError : Type 0 where
  pub code : Text
  pub message : Text
  pub details : List (Text × Text)

-- WithDetails
unfoldable pub with_details : List (Text × Text) → ApiError → ApiError
with_details details e = record { code = e.code; message = e.message; details = details }

unfoldable pub one_of : Text → List Text → Bool
unfolding text_eq
one_of code [] = Bool.false
one_of code (c ∷ cs) = text_eq code c || one_of code cs

abbrev not_found_codes : List Text
not_found_codes =
    codes "NOT_FOUND"
    ∷ codes "WORKFLOW_NOT_FOUND"
    ∷ codes "STEP_NOT_FOUND"
    ∷ codes "STEP_TYPE_NOT_FOUND"
    ∷ codes "EDGE_NOT_FOUND"
    ∷ codes "EXECUTION_NOT_FOUND"
    ∷ codes "SECRET_NOT_FOUND"
    ∷ []

abbrev bad_request_codes : List Text
bad_request_codes =
    codes "VALIDATION_ERROR"
    ∷ codes "INVALID_ID"
    ∷ codes "INVALID_CURSOR"
    ∷ codes "INVALID_FILTER"
    ∷ codes "CYCLE_DETECTED"
    ∷ []

abbrev conflict_codes : List Text
conflict_codes =
    codes "CONFLICT" ∷ codes "DUPLICATE_NAME" ∷ codes "DUPLICATE_SLUG" ∷ codes "DUPLICATE_KEY" ∷ []

-- HTTPStatus of an APIError; any other error is a 500.
unfoldable pub http_status : ApiError → ℕ
unfolding one_of
http_status e =
    if one_of e.code not_found_codes
    then 404
    else if one_of e.code bad_request_codes
    then 400
    else if one_of e.code conflict_codes
    then 409
    else if text_eq e.code (codes "PRECONDITION_FAILED")
    then 412
    else if text_eq e.code (codes "UNAUTHORIZED")
    then 401
    else if text_eq e.code (codes "FORBIDDEN")
    then 403
    else if text_eq e.code (codes "EXECUTION_SKIPPED")
    then 409
    else if text_eq e.code (codes "AI_NOT_CONFIGURED")
    then 503
    else if one_of e.code (codes "AI_UNAVAILABLE" ∷ codes "AI_PARSE_ERROR" ∷ [])
    then 502
    else if text_eq e.code (codes "AI_TIMEOUT")
    then 504
    else if text_eq e.code (codes "AI_INVALID_RESULT")
    then 422
    else 500

abbrev api_error : Text → Text → ApiError
api_error code message = record { code = code; message = message; details = [] }

abbrev pub validation_error : ApiError
validation_error = api_error (codes "VALIDATION_ERROR") (codes "validation failed")

abbrev pub internal_error : ApiError
internal_error = api_error (codes "INTERNAL_ERROR") (codes "an internal error occurred")

abbrev pub invalid_cursor : ApiError
invalid_cursor = api_error (codes "INVALID_CURSOR") (codes "invalid pagination cursor")

-- The declared errors without ErrInternal.
abbrev pub client_errors : List ApiError
client_errors =
    api_error (codes "NOT_FOUND") (codes "resource not found")
    ∷ api_error (codes "INVALID_ID") (codes "invalid resource ID format")
    ∷ validation_error
    ∷ api_error (codes "UNAUTHORIZED") (codes "authentication required")
    ∷ api_error (codes "FORBIDDEN") (codes "insufficient permissions")
    ∷ api_error (codes "WORKFLOW_NOT_FOUND") (codes "workflow not found")
    ∷ api_error (codes "STEP_NOT_FOUND") (codes "step not found")
    ∷ api_error (codes "STEP_TYPE_NOT_FOUND") (codes "step type not found")
    ∷ api_error (codes "EDGE_NOT_FOUND") (codes "edge not found")
    ∷ api_error (codes "EXECUTION_NOT_FOUND") (codes "execution not found")
    ∷ api_error (codes "DUPLICATE_NAME") (codes "name already exists")
    ∷ api_error (codes "DUPLICATE_SLUG") (codes "webhook slug already exists")
    ∷ api_error (codes "CYCLE_DETECTED") (codes "workflow contains a cycle")
    ∷ api_error (codes "EXECUTION_SKIPPED") (codes "execution skipped due to concurrency policy")
    ∷ invalid_cursor
    ∷ api_error (codes "INVALID_FILTER") (codes "invalid filter value")
    ∷ api_error (codes "SECRET_NOT_FOUND") (codes "secret not found")
    ∷ api_error (codes "DUPLICATE_KEY") (codes "a secret with this key already exists")
    ∷ []
