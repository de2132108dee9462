-- ===== src/Runners/Items/Laws.antt =====
-- What the filter keeps.
use react_go_workflow.Prelude.{
  ℕ, none, some, ◌≡◌, refl, sym, ap, ◌∙◌, ◌↔◌, ◌⊎◌, inl, inr, Bool, true, false, Text, codes,
  Bool-cases, subst,
}
use react_go_workflow.Value.{
  Value, null, nil_object, bool, int, float, string, object, array, Items, nil, cons, Object,
  of_object, index, sprint,
}
use react_go_workflow.Engine.Errors.{Result, ok}
use react_go_workflow.Engine.Types.{Call}
use react_go_workflow.Runners.Compare.{as_string, evaluate}
use react_go_workflow.Runners.Items.{as_items, keeps, filter_items, counted, filter_runner}

-- Some item of the list is the value.
abbrev pub InItems : Value → Items → Type 0
InItems v nil = ⊥
InItems v (cons w l) = (w ≡ v) ⊎ InItems v l

-- One list comes from another by leaving items out.
pub data IsPart : Items → Items → Type 0 where
  none_left : IsPart nil nil
  left_out : (v : Value) (k l : Items) → IsPart k l → IsPart k (cons v l)
  kept : (v : Value) (k l : Items) → IsPart k l → IsPart (cons v k) (cons v l)

module _ (format_float : ℕ → Text) (key operator value : Text) where
  abbrev passes : Value → Bool
  passes = keeps format_float key operator value

  abbrev filtered : Items → Items
  filtered = filter_items format_float key operator value

  filter_items-InItems :
      (v : Value) (l : Items) → InItems v (filtered l) → InItems v l × (passes v ≡ true)
  unfolding filter_items
  filter_items-InItems v nil i = absurd i
  filter_items-InItems v (cons w l) i = elim (Bool-cases (passes w)) [
    | inl yes' ↦ elim (rw (yes', filter_items) at i) [
      | inl e ↦ (inl e, subst (λ x. passes x ≡ true) e yes')
      | inr j ↦ let (k, p) = filter_items-InItems v l j in (inr k, p)
    ]
    | inr no' ↦ let (k, p) = filter_items-InItems v l (rw (no', filter_items) at i) in (inr k, p)
  ]

  InItems-filter_items :
      (v : Value) (l : Items) → InItems v l → passes v ≡ true → InItems v (filtered l)
  unfolding filter_items
  InItems-filter_items v nil i p = absurd i
  InItems-filter_items v (cons w l) i p = elim (Bool-cases (passes w)) [
    | inl yes' ↦
        rw (yes', filter_items)
          (elim i [ inl e ↦ inl e | inr j ↦ inr (InItems-filter_items v l j p) ])
    | inr no' ↦
        rw (no', filter_items)
          (elim i [
            | inl e ↦ absurd (true_false (sym p ∙ ap passes (sym e) ∙ no'))
            | inr j ↦ InItems-filter_items v l j p
          ])
  ]
    where
      true_false : true ≡ false → ⊥
      true_false q = absurd cc

  filter_items-IsPart : (l : Items) → IsPart (filtered l) l
  unfolding filter_items
  filter_items-IsPart nil = none_left
  filter_items-IsPart (cons v l) = elim (Bool-cases (passes v)) [
    | inl yes' ↦ rw (yes', filter_items) (kept v (filtered l) l (filter_items-IsPart l))
    | inr no' ↦ rw (no', filter_items) (left_out v (filtered l) l (filter_items-IsPart l))
  ]

-- The value is an object, and the operator holds of what its field prints as and the value compared with.
abbrev pub Satisfies : (ℕ → Text) → (key operator value : Text) → Value → Type 0
Satisfies format_float key operator value v =
    (o : Object) × (v ≡ of_object o)
    × (evaluate (sprint format_float (index o key)) operator value ≡ true)

keeps-Satisfies :
    (format_float : ℕ → Text) (key operator value : Text) (v : Value)
    → keeps format_float key operator value v ≡ true ↔ Satisfies format_float key operator value v
unfolding keeps
keeps-Satisfies format_float key operator value v = (out v, back v)
  where
    out :
        (v : Value)
        → keeps format_float key operator value v ≡ true
        → Satisfies format_float key operator value v
    out (object f) h = (some f, refl, h)
    out nil_object h = (none, refl, h)
    out null h = absurd cc
    out (bool b) h = absurd cc
    out (int n) h = absurd cc
    out (float x) h = absurd cc
    out (string s) h = absurd cc
    out (array l) h = absurd cc

    back :
        (v : Value)
        → Satisfies format_float key operator value v
        → keeps format_float key operator value v ≡ true
    back v (none, is, h) = subst (λ w. keeps format_float key operator value w ≡ true) (sym is) h
    back v (some f, is, h) = subst (λ w. keeps format_float key operator value w ≡ true) (sym is) h

-- What the output of the filter runner is, for a source array.
pub record Filtered (format_float : ℕ → Text) (config : Object) (source : Items)
    (answer : Result Object) : Type 0 where
  pub items : Items
  pub output : answer ≡ ok (counted (codes "items") items)
  pub part : IsPart items source
  pub exactly :
      (v : Value)
      → InItems v items ↔ (
          InItems v source
          × Satisfies format_float
              (as_string (index config (codes "field")))
              (as_string (index config (codes "operator")))
              (sprint format_float (index config (codes "value")))
              v)

-- The filter runner never fails, and answers with the items of its source array that are objects whose
-- field of the config's name, printed, stands to the value of the config as its operator asks, all of
-- them and no other, in the order of the source, and with their number.
pub filter_runner-Filtered :
    (format_float : ℕ → Text) (call : Call) (config input : Object)
    → Filtered format_float config
        (as_items (index config (codes "source_array")))
        (filter_runner format_float call config input)
unfolding filter_runner
filter_runner-Filtered format_float call config input =
    let key = as_string (index config (codes "field")) in
    let operator = as_string (index config (codes "operator")) in
    let value = sprint format_float (index config (codes "value")) in
    let source = as_items (index config (codes "source_array")) in
    record {
      items = filter_items format_float key operator value source;
      output = refl;
      part = filter_items-IsPart format_float key operator value source;
      exactly = λ v.
          let same = keeps-Satisfies format_float key operator value v in
          (
            λ i.
                let (there, p) = filter_items-InItems format_float key operator value v source i in
                (there, same.0 p),
            λ (i, p). InItems-filter_items format_float key operator value v source i (same.1 p),
          );
    }
