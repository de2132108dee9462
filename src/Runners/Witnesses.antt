-- ===== src/Runners/Witnesses.antt =====
-- The theorems of the runners at small configs, and what the runners answer there.
use react_go_workflow.Prelude.{◌≢◌, ◌⊎◌, ◌≡◌, refl, true, none, some, [], Text, codes}
use react_go_workflow.Value.{
  Value, string, int, object, array, nil, cons, end, field, Object, index,
}
use react_go_workflow.Engine.Errors.{ok}
use react_go_workflow.Engine.Types.{Call}
use react_go_workflow.Runners.Compare.{evaluate}
use react_go_workflow.Runners.Compare.Laws.{Occurs}
use react_go_workflow.Runners.Compare.Meaning.{Precedes, Decides, evaluate-Decides}
use react_go_workflow.Runners.Items.{filter_runner, as_items, counted}
use react_go_workflow.Runners.Items.Laws.{Filtered, filter_runner-Filtered}

evaluate-Decides_example :
    Decides (codes "equals") (codes "abc") (codes "bc") (codes "abc" ≡ codes "bc")
    × Decides (codes "not_equals") (codes "abc") (codes "bc") (codes "abc" ≢ codes "bc")
    × Decides (codes "contains") (codes "abc") (codes "bc") (Occurs (codes "bc") (codes "abc"))
    × Decides
        (codes "not_contains")
        (codes "abc")
        (codes "bc")
        (Occurs (codes "bc") (codes "abc") → ⊥)
    × Decides
        (codes "greater_than")
        (codes "abc")
        (codes "bc")
        (Precedes (codes "bc") (codes "abc"))
    × Decides (codes "less_than") (codes "abc") (codes "bc") (Precedes (codes "abc") (codes "bc"))
    × Decides
        (codes "is_empty")
        (codes "abc")
        (codes "bc")
        ((codes "abc" ≡ []) ⊎ (codes "abc" ≡ codes "<nil>"))
    × Decides
        (codes "is_not_empty")
        (codes "abc")
        (codes "bc")
        ((codes "abc" ≡ []) ⊎ (codes "abc" ≡ codes "<nil>") → ⊥)
evaluate-Decides_example = evaluate-Decides (codes "abc") (codes "bc")

-- Numbers are compared as texts: 10 is less than 9.
ten_is_less : evaluate (codes "10") (codes "less_than") (codes "9") ≡ true
unfolding evaluate
ten_is_less = refl

abbrev no_call : Call
no_call = record { step = 1; attempt = 1; timeout = none }

abbrev person : Text → Value
person name = object (field (codes "name") (string name) end)

abbrev filter_config : Object
filter_config = some (
    field (codes "source_array")
      (array (cons (person (codes "ann")) (cons (int 7) (cons (person (codes "bob")) nil))))
      (field (codes "field") (string (codes "name")) (
        field (codes "operator") (string (codes "equals"))
          (field (codes "value") (string (codes "bob")) end))))

filter_runs :
    filter_runner (λ _. []) no_call filter_config none
    ≡ ok (counted (codes "items") (cons (person (codes "bob")) nil))
unfolding filter_runner
filter_runs = refl

filter_runner-Filtered_example :
    Filtered
      (λ _. [])
      filter_config
      (as_items (index filter_config (codes "source_array")))
      (filter_runner (λ _. []) no_call filter_config none)
filter_runner-Filtered_example = filter_runner-Filtered (λ _. []) no_call filter_config none
