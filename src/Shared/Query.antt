-- ===== src/Shared/Query.antt =====
-- internal/shared/http.go: the query parameters, the names of fields and the messages of validation.
use react_go_workflow.Prelude.{
  ◌+◌, ℤ, Bool, ◌&&◌, ◌||◌, Option, none, some, [], ◌∷◌, ◌++◌, Text, codes, text_eq, leb,
  if◌then◌else◌, lookup, List,
}
use react_go_workflow.Shared.Numbers.{atoi}

-- r.URL.Query(): the first value of each key.
abbrev pub Query : Type 0
Query = List (Text × Text)

-- Get: a missing key reads as the empty text.
unfoldable pub get : Text → Query → Text
unfolding lookup
get key q = elim (lookup key q) [ none ↦ [] | some s ↦ s ]

abbrev or_default : Option ℤ → ℤ → ℤ
or_default none d = d
or_default (some v) d = v

-- QueryInt
unfoldable pub query_int : Query → Text → ℤ → ℤ
unfolding get atoi text_eq
query_int q key default =
    let s = get key q in if text_eq s [] then default else or_default (atoi s) default

-- QueryString
unfoldable pub query_string : Query → Text → Option Text
unfolding get text_eq
query_string q key = let s = get key q in if text_eq s [] then none else some s

-- QueryBool
unfoldable pub query_bool : Query → Text → Bool
unfolding get text_eq
query_bool q key = let s = get key q in text_eq s (codes "true") || text_eq s (codes "1")

-- The loop of toSnakeCase; the first argument says whether a character came before.
unfoldable pub snake_from : Bool → Text → Text
snake_from inside [] = []
snake_from inside (c ∷ s) =
    let rest = snake_from Bool.true s in
    if leb b'A' c && leb c b'Z'
    then (if inside then b'_' ∷ (c + 32) ∷ rest else (c + 32) ∷ rest)
    else c ∷ rest

unfoldable pub to_snake_case : Text → Text
unfolding snake_from
to_snake_case s = snake_from Bool.false s

-- validationMessage of a failed tag and its parameter.
unfoldable pub validation_message : (tag param : Text) → Text
unfolding text_eq
validation_message tag param =
    if text_eq tag (codes "required")
    then codes "this field is required"
    else if text_eq tag (codes "uuid")
    then codes "must be a valid UUID"
    else if text_eq tag (codes "max")
    then codes "must be at most " ++ param
    else if text_eq tag (codes "min")
    then codes "must be at least " ++ param
    else if text_eq tag (codes "gt")
    then codes "must be greater than " ++ param
    else if text_eq tag (codes "oneof")
    then codes "must be one of: " ++ param
    else if text_eq tag (codes "email")
    then codes "must be a valid email address"
    else if text_eq tag (codes "url")
    then codes "must be a valid URL"
    else codes "failed validation: " ++ tag
