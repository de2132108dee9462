-- ===== src/Engine/Template.antt =====
-- internal/engine/resolver.go, the two regular expressions: `\{\{([^}]+)\}\}` and
-- `\{\{steps\.([^.}]+)\.[^}]*\}\}`. Neither backtracks, since each class stops where the next
-- character is wanted, and matches are leftmost and do not overlap.
pub mod Finding
pub mod Matching
pub mod References
use react_go_workflow.Prelude.{
  ℕ, zero, suc, ◌+◌, Bool, ◌||◌, not, Option, none, some, List, [], ◌∷◌, length, Text, codes, ◌==◌,
  if◌then◌else◌,
}

-- The longest beginning of a text whose characters pass a test, and the rest.
pub record Span : Type 0 where
  pub front : Text
  pub rest : Text

unfoldable pub span : (ℕ → Bool) → Text → Span
span p [] = record { front = []; rest = [] }
span p (c ∷ s) =
    let later = span p s in
    if p c
    then record { front = c ∷ later.front; rest = later.rest }
    else record { front = []; rest = c ∷ s }

abbrev pub not_close : ℕ → Bool
not_close c = not (c == b'}')

abbrev pub in_ref : ℕ → Bool
in_ref c = not (c == b'.' || c == b'}')

-- What follows a prefix of the text.
unfoldable pub strip_prefix : Text → Text → Option Text
strip_prefix [] s = some s
strip_prefix (p ∷ ps) [] = none
strip_prefix (p ∷ ps) (c ∷ s) = if p == c then strip_prefix ps s else none

-- A match at the start of a text: the submatch, and how many characters follow the first one.
pub record Match : Type 0 where
  pub group : Text
  pub more : ℕ

abbrev close_expression : Text → Text → Option Match
close_expression [] s = none
close_expression (c ∷ inner) s = elim (strip_prefix (codes "}}") s) [
  | none ↦ none
  | some _ ↦ some (record { group = c ∷ inner; more = length (c ∷ inner) + 3 })
]

-- expressionPattern, at the start of the text.
unfoldable pub match_expression : Text → Option Match
unfolding span strip_prefix
match_expression s = elim (strip_prefix (codes "{{") s) [
  | none ↦ none
  | some t ↦ close_expression (span not_close t).front (span not_close t).rest
]

abbrev pub close_ref : Text → Text → Option Match
close_ref ref s = elim (strip_prefix (codes ".") s) [
  | none ↦ none
  | some t ↦ elim (strip_prefix (codes "}}") (span not_close t).rest) [
    | none ↦ none
    | some _ ↦
        some (record { group = ref; more = length ref + length (span not_close t).front + 10 })
  ]
]

abbrev pub name_ref : Text → Text → Option Match
name_ref [] s = none
name_ref (c ∷ ref) s = close_ref (c ∷ ref) s

-- stepRefPattern, at the start of the text.
unfoldable pub match_ref : Text → Option Match
unfolding span strip_prefix
match_ref s = elim (strip_prefix (codes "{{steps.") s) [
  | none ↦ none
  | some t ↦ name_ref (span in_ref t).front (span in_ref t).rest
]

-- A text cut into its matches and the characters between them.
pub data Segment : Type 0 where
  lit : ℕ → Segment
  hit : Text → Segment

-- The number says how many characters of the last match are still to pass.
unfoldable pub scan : (Text → Option Match) → ℕ → Text → List Segment
scan m k [] = []
scan m (suc k) (c ∷ s) = scan m k s
scan m zero (c ∷ s) = elim (m (c ∷ s)) [
  | none ↦ lit c ∷ scan m zero s
  | some found ↦ hit found.group ∷ scan m found.more s
]

-- The submatches of FindAllStringSubmatch.
unfoldable pub hits : List Segment → List Text
hits [] = []
hits (lit c ∷ l) = hits l
hits (hit g ∷ l) = g ∷ hits l
