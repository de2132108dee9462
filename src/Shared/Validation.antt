-- ===== src/Shared/Validation.antt =====
-- internal/shared/validation.go.
use react_go_workflow.Prelude.{
  ℕ, pos, Option, none, some, List, [], ◌∷◌, ◌++◌, ◌+◌, Text, codes, text_eq, ltb, if◌then◌else◌,
  insert,
}
use react_go_workflow.Shared.Numbers.{itoa}
use react_go_workflow.Shared.Errors.{ApiError, with_details, validation_error}

abbrev pub FieldErrors : Type 0
FieldErrors = List (Text × Text)

-- Add
unfoldable pub add : Text → Text → FieldErrors → FieldErrors
unfolding insert
add field message errs = insert field message errs

-- Err
unfoldable pub errors_of : FieldErrors → Option ApiError
unfolding with_details
errors_of [] = none
errors_of (e ∷ errs) = some (with_details (e ∷ errs) validation_error)

-- ValidateRequired
unfoldable pub validate_required : FieldErrors → Text → Text → FieldErrors
unfolding add text_eq
validate_required errs field value =
    if text_eq value [] then add field (codes "this field is required") errs else errs

-- len(s): the bytes of the text in UTF-8.
unfoldable pub byte_length : Text → ℕ
byte_length [] = 0
byte_length (c ∷ s) =
    (if ltb c 0x80 then 1 else if ltb c 0x800 then 2 else if ltb c 0x10000 then 3 else 4)
    + byte_length s

abbrev too_long : Option Text → Text
too_long none = []
too_long (some digits) = codes "must be at most " ++ (digits ++ codes " characters")

-- ValidateMaxLen
unfoldable pub validate_max_len : FieldErrors → Text → Text → ℕ → FieldErrors
unfolding add itoa byte_length
validate_max_len errs field value max =
    if ltb max (byte_length value) then add field (too_long (itoa (pos max))) errs else errs
