-- ===== src/Runners/Compare.antt =====
-- runners/condition.go.
pub mod Laws
pub mod Meaning
use react_go_workflow.Prelude.{
  ℕ, Bool, true, false, not, ◌||◌, ◌&&◌, List, [], ◌∷◌, Text, codes, text_eq, if◌then◌else◌, ◌==◌,
  some,
}
use react_go_workflow.Value.{Value, bool, string, end, field, Object, index, sprint, text_less}
use react_go_workflow.Engine.Errors.{Result, ok}
use react_go_workflow.Engine.Types.{StepRunner, Call}

-- v, _ := config[k].(string)
abbrev pub as_string : Value → Text
as_string (string s) = s
as_string _ = []

-- strings.HasPrefix
unfoldable pub has_prefix : Text → Text → Bool
has_prefix s [] = true
has_prefix [] (c ∷ p) = false
has_prefix (d ∷ s) (c ∷ p) = d == c && has_prefix s p

-- strings.Contains
unfoldable pub contains : Text → Text → Bool
unfolding has_prefix
contains [] sub = has_prefix [] sub
contains (c ∷ s) sub = has_prefix (c ∷ s) sub || contains s sub

abbrev pub is_blank : Text → Bool
is_blank s = text_eq s [] || text_eq s (codes "<nil>")

unfoldable pub evaluate : (shown operator value : Text) → Bool
unfolding contains text_less text_eq
evaluate shown operator value =
    if text_eq operator (codes "equals")
    then text_eq shown value
    else if text_eq operator (codes "not_equals")
    then not (text_eq shown value)
    else if text_eq operator (codes "contains")
    then contains shown value
    else if text_eq operator (codes "not_contains")
    then not (contains shown value)
    else if text_eq operator (codes "greater_than")
    then text_less value shown
    else if text_eq operator (codes "less_than")
    then text_less shown value
    else if text_eq operator (codes "is_empty")
    then is_blank shown
    else if text_eq operator (codes "is_not_empty")
    then not (is_blank shown)
    else false

-- ConditionRunner.Run
unfoldable pub condition_runner : (ℕ → Text) → StepRunner
unfolding sprint index evaluate
condition_runner format_float call config input =
    let shown = sprint format_float (index config (codes "field")) in
    let value = sprint format_float (index config (codes "value")) in
    let operator = as_string (index config (codes "operator")) in
    ok (some (field (codes "result") (bool (evaluate shown operator value)) end))
