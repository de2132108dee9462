-- ===== src/Shared/Responses.antt =====
-- internal/shared/http.go: the responses that are written for errors, and the decoding of a body.
use react_go_workflow.Prelude.{ℕ, List, [], ◌∷◌, ◌++◌, Text, codes, insert}
use react_go_workflow.Shared.Errors.{
  ApiError, with_details, http_status, validation_error, internal_error,
}
use react_go_workflow.Shared.Query.{to_snake_case, validation_message}

-- An error as WriteError tells them apart.
pub data AnyError : Type 0 where
  api : ApiError → AnyError
  other : (said : Text) → AnyError

-- The status and the body that WriteJSON writes.
pub record Response : Type 0 where
  pub status : ℕ
  pub body : ApiError

-- WriteError
unfoldable pub write_error : AnyError → Response
unfolding http_status
write_error (api e) = record { status = http_status e; body = e }
write_error (other said) = record { status = 500; body = internal_error }

-- A rule of the package validator that a field breaks.
pub record FieldFailure : Type 0 where
  pub field : Text
  pub tag : Text
  pub param : Text

-- What DecodeAndValidate returns: the body is no JSON, or fields break their rules.
pub data RequestError : Type 0 where
  not_json : (said : Text) → RequestError
  broken_rules : List FieldFailure → RequestError

-- The loop over the failures: a later one of the same field takes the place of the earlier.
unfoldable pub add_details : List FieldFailure → List (Text × Text) → List (Text × Text)
unfolding to_snake_case validation_message insert
add_details [] details = details
add_details (f ∷ l) details =
    add_details l (insert (to_snake_case f.field) (validation_message f.tag f.param) details)

abbrev details_of : RequestError → List (Text × Text)
unfolding add_details
details_of (broken_rules l) = add_details l []
details_of (not_json said) = (codes "error", said) ∷ []

-- WriteValidationError
unfoldable pub write_validation_error : RequestError → Response
unfolding with_details add_details
write_validation_error e = record {
  status = 400;
  body = with_details (details_of e) validation_error;
}

-- DecodeAndValidate, where `decode` reads a body or says why it does not, and `validate` names the fields
-- that break their rules.
pub data Decoded (A : Type 0) : Type 0 where
  decoded : A → Decoded A
  rejected : RequestError → Decoded A

pub data Read (A : Type 0) : Type 0 where
  read : A → Read A
  unreadable : (said : Text) → Read A

abbrev checked : {A : Type 0} → List FieldFailure → A → Decoded A
checked [] a = decoded a
checked (f ∷ l) a = rejected (broken_rules (f ∷ l))

unfoldable pub decode_and_validate :
    {A : Type 0} → (Text → Read A) → (A → List FieldFailure) → Text → Decoded A
decode_and_validate decode validate body = elim (decode body) [
  | unreadable said ↦ rejected (not_json (codes "invalid JSON: " ++ said))
  | read a ↦ checked (validate a) a
]
