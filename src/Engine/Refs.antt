-- ===== src/Engine/Refs.antt =====
-- internal/engine/resolver.go: the step references in a config.
use react_go_workflow.Prelude.{List, [], ◌∷◌, Text, text_eq, if◌then◌else◌}
use react_go_workflow.Value.{
  Value, null, nil_object, bool, int, float, string, object, array, Items, nil, cons, Fields, end,
  field, Object, of_object,
}
use react_go_workflow.Engine.Template.{match_ref, scan, hits}

-- refs[ref] = true; the set is a list without repeats.
unfoldable pub add_ref : Text → List Text → List Text
add_ref ref [] = ref ∷ []
add_ref ref (r ∷ refs) = if text_eq r ref then r ∷ refs else r ∷ add_ref ref refs

unfoldable pub add_refs : List Text → List Text → List Text
unfolding add_ref
add_refs [] refs = refs
add_refs (r ∷ rs) refs = add_refs rs (add_ref r refs)

unfoldable mutual
  unfolding add_refs scan hits match_ref

  pub extract_from_value : Value → List Text → List Text
  extract_from_value (string s) refs = add_refs (hits (scan match_ref 0 s)) refs
  extract_from_value (object f) refs = extract_from_fields f refs
  extract_from_value (array l) refs = extract_from_items l refs
  extract_from_value null refs = refs
  extract_from_value nil_object refs = refs
  extract_from_value (bool b) refs = refs
  extract_from_value (int n) refs = refs
  extract_from_value (float x) refs = refs

  pub extract_from_items : Items → List Text → List Text
  extract_from_items nil refs = refs
  extract_from_items (cons v l) refs = extract_from_items l (extract_from_value v refs)

  pub extract_from_fields : Fields → List Text → List Text
  extract_from_fields end refs = refs
  extract_from_fields (field k v f) refs = extract_from_fields f (extract_from_value v refs)

unfoldable pub extract_step_refs : Object → List Text
unfolding extract_from_value
extract_step_refs config = extract_from_value (of_object config) []
