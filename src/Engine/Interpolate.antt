-- ===== src/Engine/Interpolate.antt =====
-- internal/engine/resolver.go: the resolution of strings, maps and lists with expressions in them.
pub mod Laws
use react_go_workflow.Prelude.{ℕ, none, some, Option, List, [], ◌∷◌, ◌++◌, Text, codes}
use react_go_workflow.Value.{
  Value, null, nil_object, bool, int, float, string, object, array, Items, nil, cons, Fields, end,
  field, Object, sprint,
}
use react_go_workflow.Engine.Errors.{Error, in_field, in_expression, Result, ok, err, ◌>>=◌, wrap}
use react_go_workflow.Engine.Template.{Segment, lit, hit, match_expression, scan}
use react_go_workflow.Engine.Context.{ExecContext}
use react_go_workflow.Engine.Resolver.{resolve_expression}

-- The text of a match: an expression with its braces.
abbrev pub braced : Text → Text
braced expr = codes "{{" ++ (expr ++ codes "}}")

-- What ReplaceAllStringFunc and its callback leave: the text and the last error.
pub record Interpolation : Type 0 where
  pub text : Text
  pub failed : Option Error

abbrev last_error : Option Error → Error → Option Error
last_error none e = some e
last_error (some later) e = some later

module _ (format_float : ℕ → Text) (c : ExecContext) where
  abbrev put_segment : Text → Result Value → Interpolation → Interpolation
  put_segment expr (ok v) later = record later { text = sprint format_float v ++ later.text }
  put_segment expr (err e) later = record {
    text = braced expr ++ later.text;
    failed = last_error later.failed (in_expression (braced expr) e);
  }

  unfoldable pub interpolate : List Segment → Interpolation
  unfolding sprint
  interpolate [] = record { text = []; failed = none }
  interpolate (lit ch ∷ l) = let later = interpolate l in record later { text = ch ∷ later.text }
  interpolate (hit expr ∷ l) = put_segment expr (resolve_expression expr c) (interpolate l)

  abbrev pub finish_interpolation : Interpolation → Result Value
  finish_interpolation r = elim r.failed [ none ↦ ok (string r.text) | some e ↦ err e ]

  -- A text that is one expression resolves to its value, and any other to a text.
  unfoldable pub resolve_segments : List Segment → Result Value
  unfolding interpolate
  resolve_segments (hit expr ∷ []) = resolve_expression expr c
  resolve_segments l = finish_interpolation (interpolate l)

  unfoldable pub resolve_string : Text → Result Value
  unfolding resolve_segments resolve_expression scan match_expression
  resolve_string s = resolve_segments (scan match_expression 0 s)

  unfoldable mutual
    unfolding resolve_string

    pub resolve_value : Value → Result Value
    resolve_value (string s) = resolve_string s
    resolve_value (object f) = resolve_fields f >>= λ g. ok (object g)
    resolve_value (array l) = resolve_items l >>= λ r. ok (array r)
    resolve_value null = ok null
    resolve_value nil_object = ok nil_object
    resolve_value (bool b) = ok (bool b)
    resolve_value (int n) = ok (int n)
    resolve_value (float x) = ok (float x)

    pub resolve_items : Items → Result Items
    resolve_items nil = ok nil
    resolve_items (cons v l) = resolve_value v >>= λ w. resolve_items l >>= λ r. ok (cons w r)

    pub resolve_fields : Fields → Result Fields
    resolve_fields end = ok end
    resolve_fields (field k v f) =
        wrap (in_field k) (resolve_value v) >>= λ w. resolve_fields f >>= λ g. ok (field k w g)

  -- A nil map stays nil.
  unfoldable pub resolve_map : Object → Result Object
  unfolding resolve_value
  resolve_map none = ok none
  resolve_map (some f) = resolve_fields f >>= λ g. ok (some g)
