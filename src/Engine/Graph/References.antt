-- ===== src/Engine/Graph/References.antt =====
-- The references in the configs, in the graph: a step depends on each step that a text of its config names.
use react_go_workflow.Prelude.{
  refl, subst, ◌⊎◌, inl, inr, Bool-cases, List, [], ◌∷◌, In, Text, text_eq, text_eq_iff,
}
use react_go_workflow.Value.{
  Value, null, nil_object, bool, int, float, string, object, array, Items, nil, cons, Fields, end,
  field, of_object,
}
use react_go_workflow.Engine.Template.{scan, hits, match_ref}
use react_go_workflow.Engine.Template.Finding.{Finds, Finds-hits, SomeText, SomeItem, SomeField}
use react_go_workflow.Engine.Template.References.{BeginsRef, match_ref-IsAnswer}
use react_go_workflow.Engine.Refs.{
  add_ref, add_refs, extract_from_value, extract_from_items, extract_from_fields, extract_step_refs,
}
use react_go_workflow.Engine.Types.{Step}

-- A text in the value refers to a step by the reference.
abbrev pub Mentions : Text → Value → Type 0
Mentions ref v = SomeText (Finds BeginsRef ref) v

In-add_ref_old : (r x : Text) (refs : List Text) → In r refs → In r (add_ref x refs)
unfolding add_ref
In-add_ref_old r x [] i = absurd i
In-add_ref_old r x (y ∷ refs) i = elim (Bool-cases (text_eq y x)) [
  | inl same ↦ rw same i
  | inr other ↦ rw other (elim i [ inl e ↦ inl e | inr j ↦ inr (In-add_ref_old r x refs j) ])
]

In-add_ref_new : (x : Text) (refs : List Text) → In x (add_ref x refs)
unfolding add_ref
In-add_ref_new x [] = inl refl
In-add_ref_new x (y ∷ refs) = elim (Bool-cases (text_eq y x)) [
  | inl same ↦ rw same (inl ((text_eq_iff y x).0 same))
  | inr other ↦ rw other (inr (In-add_ref_new x refs))
]

In-add_refs : (r : Text) (l refs : List Text) → In r l ⊎ In r refs → In r (add_refs l refs)
unfolding add_refs
In-add_refs r [] refs (inl i) = absurd i
In-add_refs r [] refs (inr i) = i
In-add_refs r (x ∷ l) refs (inl (inl e)) =
    In-add_refs r l (add_ref x refs)
      (inr (subst (λ y. In y (add_ref x refs)) e (In-add_ref_new x refs)))
In-add_refs r (x ∷ l) refs (inl (inr i)) = In-add_refs r l (add_ref x refs) (inl i)
In-add_refs r (x ∷ l) refs (inr i) =
    In-add_refs r l (add_ref x refs) (inr (In-add_ref_old r x refs i))

module _ (r : Text) where
  mutual
    unfolding extract_from_value SomeText

    extract_from_value-In :
        (v : Value) (refs : List Text) → Mentions r v ⊎ In r refs → In r (extract_from_value v refs)
    extract_from_value-In (string s) refs (inl f) =
        In-add_refs r (hits (scan match_ref 0 s)) refs
          (inl (Finds-hits BeginsRef match_ref match_ref-IsAnswer r s f))
    extract_from_value-In (string s) refs (inr i) =
        In-add_refs r (hits (scan match_ref 0 s)) refs (inr i)
    extract_from_value-In (object f) refs h = extract_from_fields-In f refs h
    extract_from_value-In (array l) refs h = extract_from_items-In l refs h
    extract_from_value-In null refs (inl f) = absurd f
    extract_from_value-In null refs (inr i) = i
    extract_from_value-In nil_object refs (inl f) = absurd f
    extract_from_value-In nil_object refs (inr i) = i
    extract_from_value-In (bool b) refs (inl f) = absurd f
    extract_from_value-In (bool b) refs (inr i) = i
    extract_from_value-In (int n) refs (inl f) = absurd f
    extract_from_value-In (int n) refs (inr i) = i
    extract_from_value-In (float x) refs (inl f) = absurd f
    extract_from_value-In (float x) refs (inr i) = i

    extract_from_items-In :
        (l : Items) (refs : List Text)
        → SomeItem (Finds BeginsRef r) l ⊎ In r refs
        → In r (extract_from_items l refs)
    extract_from_items-In nil refs (inl f) = absurd f
    extract_from_items-In nil refs (inr i) = i
    extract_from_items-In (cons v l) refs (inl (inl f)) =
        extract_from_items-In l (extract_from_value v refs)
          (inr (extract_from_value-In v refs (inl f)))
    extract_from_items-In (cons v l) refs (inl (inr f)) =
        extract_from_items-In l (extract_from_value v refs) (inl f)
    extract_from_items-In (cons v l) refs (inr i) =
        extract_from_items-In l (extract_from_value v refs)
          (inr (extract_from_value-In v refs (inr i)))

    extract_from_fields-In :
        (f : Fields) (refs : List Text)
        → SomeField (Finds BeginsRef r) f ⊎ In r refs
        → In r (extract_from_fields f refs)
    extract_from_fields-In end refs (inl f) = absurd f
    extract_from_fields-In end refs (inr i) = i
    extract_from_fields-In (field k v l) refs (inl (inl f)) =
        extract_from_fields-In l (extract_from_value v refs)
          (inr (extract_from_value-In v refs (inl f)))
    extract_from_fields-In (field k v l) refs (inl (inr f)) =
        extract_from_fields-In l (extract_from_value v refs) (inl f)
    extract_from_fields-In (field k v l) refs (inr i) =
        extract_from_fields-In l (extract_from_value v refs)
          (inr (extract_from_value-In v refs (inr i)))

  pub extract_step_refs-In :
      (s : Step) → Mentions r (of_object s.config) → In r (extract_step_refs s.config)
  unfolding extract_step_refs
  extract_step_refs-In s f = extract_from_value-In (of_object s.config) [] (inl f)
