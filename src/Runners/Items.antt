-- ===== src/Runners/Items.antt =====
-- runners/filter.go and runners/loop.go.
pub mod Laws
use react_go_workflow.Prelude.{ℕ, zero, suc, Bool, Option, none, some, Text, codes, if◌then◌else◌}
use react_go_workflow.Value.{
  Value, null, nil_object, bool, int, float, string, object, array, Items, nil, cons, Fields, end,
  field, Object, index, sprint,
}
use react_go_workflow.Engine.Errors.{Result, ok, err, runner_error}
use react_go_workflow.Engine.Types.{StepRunner, Call}
use react_go_workflow.Runners.Compare.{as_string, evaluate}

-- len(items)
unfoldable pub count : Items → ℕ
count nil = 0
count (cons v l) = suc (count l)

-- items, _ := v.([]any), where a nil slice is empty.
abbrev pub as_items : Value → Items
as_items (array l) = l
as_items _ = nil

-- itemMap, ok := item.(map[string]any)
abbrev pub as_object : Value → Option Object
as_object (object f) = some (some f)
as_object nil_object = some none
as_object _ = none

module _ (format_float : ℕ → Text) (key operator value : Text) where
  -- Whether the loop of FilterRunner.Run keeps an item.
  unfoldable pub keeps : Value → Bool
  unfolding evaluate sprint index
  keeps item = elim (as_object item) [
    | none ↦ Bool.false
    | some o ↦ evaluate (sprint format_float (index o key)) operator value
  ]

  unfoldable pub filter_items : Items → Items
  unfolding keeps
  filter_items nil = nil
  filter_items (cons v l) = if keeps v then cons v (filter_items l) else filter_items l

abbrev pub counted : Text → Items → Object
counted key l = some (field key (array l) (field (codes "count") (int (count l)) end))

-- FilterRunner.Run
unfoldable pub filter_runner : (ℕ → Text) → StepRunner
unfolding filter_items count sprint index
filter_runner format_float call config input =
    let key = as_string (index config (codes "field")) in
    let operator = as_string (index config (codes "operator")) in
    let value = sprint format_float (index config (codes "value")) in
    ok (
      counted (codes "items") (
        filter_items format_float key operator value
          (as_items (index config (codes "source_array")))))

-- LoopRunner.Run: the copy of the array is the array.
unfoldable pub loop_runner : StepRunner
unfolding count index
loop_runner call config input = elim (index config (codes "source_array")) [
  | array l ↦ ok (counted (codes "results") l)
  | _ ↦ err (runner_error (codes "source_array is not an array"))
]
