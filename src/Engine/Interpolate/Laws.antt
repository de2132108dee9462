-- ===== src/Engine/Interpolate/Laws.antt =====
-- What has no brace in it is resolved to itself.
use react_go_workflow.Prelude.{
  ℕ, ◌≡◌, ◌≢◌, refl, sym, ap, ◌∙◌, inl, inr, false, Option, none, some, List, [], ◌∷◌, All, Text,
  Bool-cases, ◌==◌, ==_iff, map,
}
use react_go_workflow.Value.{
  Value, null, nil_object, bool, int, float, string, object, array, Items, nil, cons, Fields, end,
  field, Object,
}
use react_go_workflow.Engine.Errors.{ok, ◌>>=◌}
use react_go_workflow.Engine.Template.{
  Match, Segment, lit, strip_prefix, match_expression, match_ref, scan, hits,
}
use react_go_workflow.Engine.Context.{ExecContext}
use react_go_workflow.Engine.Refs.{
  extract_step_refs, extract_from_value, extract_from_items, extract_from_fields, add_refs,
}
use react_go_workflow.Engine.Interpolate.{
  Interpolation, interpolate, resolve_segments, resolve_string, resolve_value, resolve_items,
  resolve_fields, resolve_map, finish_interpolation,
}

-- No character of the text opens a brace.
abbrev pub NoBrace : Text → Type 0
NoBrace = All (λ c. c ≢ b'{')

unfoldable mutual
  pub IsPlain : Value → Type 0
  IsPlain (string s) = NoBrace s
  IsPlain (object f) = FieldsPlain f
  IsPlain (array l) = ItemsPlain l
  IsPlain null = Unit
  IsPlain nil_object = Unit
  IsPlain (bool b) = Unit
  IsPlain (int n) = Unit
  IsPlain (float x) = Unit

  pub ItemsPlain : Items → Type 0
  ItemsPlain nil = Unit
  ItemsPlain (cons v l) = IsPlain v × ItemsPlain l

  pub FieldsPlain : Fields → Type 0
  FieldsPlain end = Unit
  FieldsPlain (field k v f) = IsPlain v × FieldsPlain f

not_brace : (c : ℕ) → c ≢ b'{' → (b'{' == c) ≡ false
not_brace c n = elim (Bool-cases (b'{' == c)) [
  | inl same ↦ absurd (n (sym ((==_iff b'{' c).0 same)))
  | inr miss ↦ miss
]

-- Neither pattern matches at another character.
match_expression-none : (c : ℕ) (s : Text) → c ≢ b'{' → match_expression (c ∷ s) ≡ none
unfolding match_expression
match_expression-none c s n = rw (not_brace c n, match_expression, strip_prefix) refl

match_ref-none : (c : ℕ) (s : Text) → c ≢ b'{' → match_ref (c ∷ s) ≡ none
unfolding match_ref
match_ref-none c s n = rw (not_brace c n, match_ref, strip_prefix) refl

abbrev literal : Text → List Segment
literal = map lit

scan-literal :
    (m : Text → Option Match)
    → ((c : ℕ) (s : Text) → c ≢ b'{' → m (c ∷ s) ≡ none)
    → (s : Text) → NoBrace s
    → scan m 0 s ≡ literal s
unfolding scan
scan-literal m misses [] h = refl
scan-literal m misses (c ∷ s) h =
    rw (misses c s h.0, scan) (ap (λ l. lit c ∷ l) (scan-literal m misses s h.1))

hits-literal : (s : Text) → hits (literal s) ≡ []
unfolding hits
hits-literal [] = refl
hits-literal (c ∷ s) = hits-literal s

module _ (format_float : ℕ → Text) (c : ExecContext) where
  interpolate-literal :
      (s : Text) → interpolate format_float c (literal s) ≡ record { text = s; failed = none }
  unfolding interpolate
  interpolate-literal [] = refl
  interpolate-literal (x ∷ s) =
      ap (λ (r : Interpolation). record r { text = x ∷ r.text }) (interpolate-literal s)

  resolve_segments-literal :
      (s : Text) → resolve_segments format_float c (literal s) ≡ ok (string s)
  unfolding resolve_segments
  resolve_segments-literal [] = unfold interpolate in refl
  resolve_segments-literal (x ∷ s) =
      ap (finish_interpolation format_float c) (interpolate-literal (x ∷ s))

  resolve_string-plain : (s : Text) → NoBrace s → resolve_string format_float c s ≡ ok (string s)
  unfolding resolve_string
  resolve_string-plain s h =
      ap (resolve_segments format_float c) (scan-literal match_expression match_expression-none s h)
      ∙ resolve_segments-literal s

  mutual
    unfolding resolve_value resolve_items resolve_fields IsPlain

    resolve_value-plain : (v : Value) → IsPlain v → resolve_value format_float c v ≡ ok v
    resolve_value-plain (string s) h = resolve_string-plain s h
    resolve_value-plain (object f) h = ap (λ r. r >>= λ g. ok (object g)) (resolve_fields-plain f h)
    resolve_value-plain (array l) h = ap (λ r. r >>= λ g. ok (array g)) (resolve_items-plain l h)
    resolve_value-plain null h = refl
    resolve_value-plain nil_object h = refl
    resolve_value-plain (bool b) h = refl
    resolve_value-plain (int n) h = refl
    resolve_value-plain (float x) h = refl

    resolve_items-plain : (l : Items) → ItemsPlain l → resolve_items format_float c l ≡ ok l
    resolve_items-plain nil h = refl
    resolve_items-plain (cons v l) h =
        rw (resolve_value-plain v h.0, resolve_items-plain l h.1) refl

    resolve_fields-plain : (f : Fields) → FieldsPlain f → resolve_fields format_float c f ≡ ok f
    resolve_fields-plain end h = refl
    resolve_fields-plain (field k v f) h =
        rw (resolve_value-plain v h.0, resolve_fields-plain f h.1) refl

mutual
  unfolding extract_from_value extract_from_items extract_from_fields add_refs IsPlain

  extract_from_value-plain :
      (v : Value) (refs : List Text) → IsPlain v → extract_from_value v refs ≡ refs
  extract_from_value-plain (string s) refs h =
      ap (λ l. add_refs (hits l) refs) (scan-literal match_ref match_ref-none s h)
      ∙ ap (λ l. add_refs l refs) (hits-literal s)
  extract_from_value-plain (object f) refs h = extract_from_fields-plain f refs h
  extract_from_value-plain (array l) refs h = extract_from_items-plain l refs h
  extract_from_value-plain null refs h = refl
  extract_from_value-plain nil_object refs h = refl
  extract_from_value-plain (bool b) refs h = refl
  extract_from_value-plain (int n) refs h = refl
  extract_from_value-plain (float x) refs h = refl

  extract_from_items-plain :
      (l : Items) (refs : List Text) → ItemsPlain l → extract_from_items l refs ≡ refs
  extract_from_items-plain nil refs h = refl
  extract_from_items-plain (cons v l) refs h =
      ap (extract_from_items l) (extract_from_value-plain v refs h.0)
      ∙ extract_from_items-plain l refs h.1

  extract_from_fields-plain :
      (f : Fields) (refs : List Text) → FieldsPlain f → extract_from_fields f refs ≡ refs
  extract_from_fields-plain end refs h = refl
  extract_from_fields-plain (field k v f) refs h =
      ap (extract_from_fields f) (extract_from_value-plain v refs h.0)
      ∙ extract_from_fields-plain f refs h.1

abbrev pub ObjectPlain : Object → Type 0
ObjectPlain none = Unit
ObjectPlain (some f) = FieldsPlain f

-- A config in whose texts no brace opens, at any depth, resolves to itself in every context, and refers
-- to no step.
pub resolve_map-plain :
    (format_float : ℕ → Text) (c : ExecContext) (config : Object)
    → ObjectPlain config
    → (resolve_map format_float c config ≡ ok config) × (extract_step_refs config ≡ [])
unfolding resolve_map extract_step_refs
resolve_map-plain format_float c none h = (refl, refl)
resolve_map-plain format_float c (some f) h = (
  ap (λ r. r >>= λ g. ok (some g)) (resolve_fields-plain format_float c f h),
  extract_from_fields-plain f [] h,
)
