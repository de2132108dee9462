-- ===== src/Runners/Fields/Laws.antt =====
-- What the transform runner maps.
use react_go_workflow.Prelude.{
  ◌≡◌, ◌≢◌, refl, sym, ap, ◌∙◌, inl, inr, false, Option, none, some, [], Text, codes, text_eq,
  text_eq_iff, arith, Bool-cases, if◌then◌else◌,
}
use react_go_workflow.Value.{Value, object, Fields, end, field, Object, index, get_field, set_field}
use react_go_workflow.Engine.Errors.{ok}
use react_go_workflow.Engine.Types.{Call}
use react_go_workflow.Runners.Fields.{put_mappings, mapped, or_input, transform_runner}

get_field-set_field :
    (k j : Text) (v : Value) (f : Fields)
    → get_field j (set_field k v f) ≡ (if text_eq k j then some v else get_field j f)
unfolding get_field set_field
get_field-set_field k j v end = refl
get_field-set_field k j v (field i w f) =
    ground (arith, text_eq_iff k j, text_eq_iff i k, text_eq_iff i j, get_field-set_field k j v f)

-- No key stands twice, as in every map.
abbrev pub KeysDiffer : Fields → Type 0
KeysDiffer end = Unit
KeysDiffer (field k v f) = (get_field k f ≡ none) × KeysDiffer f

abbrev or_else : Option Value → Option Value → Option Value
or_else (some v) o = some v
or_else none o = o

get_field-put_mappings :
    (f output : Fields) (k : Text)
    → KeysDiffer f
    → k ≢ []
    → get_field k (put_mappings f output) ≡ or_else (get_field k f) (get_field k output)
unfolding put_mappings get_field
get_field-put_mappings end output k d n = refl
get_field-put_mappings (field j v f) output k d n =
    get_field-put_mappings f (if text_eq j [] then output else set_field j v output) k d.1 n
    ∙ elim (Bool-cases (text_eq j k)) [
      | inl same ↦
          let e = (text_eq_iff j k).0 same in
          rw (same, ap (λ x. get_field x f) (sym e) ∙ d.0) (put_same e)
      | inr other ↦ rw other (ap (or_else (get_field k f)) (put_other other))
    ]
  where
    put : Fields
    put = if text_eq j [] then output else set_field j v output

    put_same : j ≡ k → get_field k put ≡ some v
    put_same e = elim (Bool-cases (text_eq j [])) [
      | inl blank ↦ absurd (n (sym e ∙ (text_eq_iff j []).0 blank))
      | inr named ↦ rw (named, get_field-set_field j k v output, (text_eq_iff j k).1 e) refl
    ]

    put_other : text_eq j k ≡ false → get_field k put ≡ get_field k output
    put_other other = elim (Bool-cases (text_eq j [])) [
      | inl blank ↦ rw blank refl
      | inr named ↦ rw (named, get_field-set_field j k v output, other) refl
    ]

get_field-put_mappings_blank :
    (f output : Fields) → get_field [] output ≡ none → get_field [] (put_mappings f output) ≡ none
unfolding put_mappings
get_field-put_mappings_blank end output h = h
get_field-put_mappings_blank (field j v f) output h = elim (Bool-cases (text_eq j [])) [
  | inl blank ↦ rw (blank, put_mappings) (get_field-put_mappings_blank f output h)
  | inr named ↦
      rw (named, put_mappings)
        (get_field-put_mappings_blank f (set_field j v output)
          (rw (get_field-set_field j [] v output, named) h))
]

-- With a flat mapping, the output has under each key that is not empty what the mapping has there, and
-- nothing under the empty key; where that leaves nothing the output is the input.
pub transform_runner-fields :
    (call : Call) (config input : Object) (f : Fields)
    → index config (codes "mappings") ≡ object f
    → KeysDiffer f
    → (g : Fields) × (transform_runner call config input ≡ ok (or_input g input))
      × ((k : Text) → k ≢ [] → get_field k g ≡ get_field k f)
      × (get_field [] g ≡ none)
unfolding transform_runner get_field
transform_runner-fields call config input f e d = (
  put_mappings f end,
  ap (λ v. ok (or_input (mapped v) input)) e,
  (λ k n. get_field-put_mappings f end k d n ∙ same (get_field k f)),
  get_field-put_mappings_blank f end refl,
)
  where
    same : (o : Option Value) → or_else o none ≡ o
    same none = refl
    same (some v) = refl
