-- ===== src/Ai/Enrich/Missing.antt =====
-- The secrets that scanForSecrets reports are those that a config refers to and that do not exist.
use mathlib.Core.Bool.{false≢true}
use react_go_workflow.Prelude.{
  ◌≡◌, ◌↔◌, refl, sym, ap, ◌∙◌, subst, ◌⊎◌, inl, inr, Bool, true, false, ◌||◌, List, [], ◌∷◌, Text,
  text_eq, text_eq_iff, In, if◌then◌else◌,
}
use react_go_workflow.Value.{
  Value, null, nil_object, bool, int, float, string, object, array, Items, nil, cons, Fields, end,
  field, of_object,
}
use react_go_workflow.Engine.Template.Finding.{
  Finds, Finds-hits, hits-Finds, SomeText, SomeItem, SomeField,
}
use react_go_workflow.Ai.Enrich.Matching.{BeginsSecret, match_secret-IsAnswer}
use react_go_workflow.Ai.Enrich.{
  match_secret, GeneratedStep, has_key, add_missing, add_all, secret_refs, scan_for_secrets,
  scan_items, scan_fields, scan_steps,
}

-- A text somewhere in the value refers to the key.
abbrev Mentions : Text → Value → Type 0
Mentions k v = SomeText (Finds BeginsSecret k) v

abbrev ItemsMention : Text → Items → Type 0
ItemsMention k l = SomeItem (Finds BeginsSecret k) l

abbrev FieldsMention : Text → Fields → Type 0
FieldsMention k f = SomeField (Finds BeginsSecret k) f

abbrev pub StepsMention : Text → List GeneratedStep → Type 0
StepsMention k [] = ⊥
StepsMention k (s ∷ l) = Mentions k (of_object s.config) ⊎ StepsMention k l

has_key-In : (k : Text) (l : List Text) → has_key k l ≡ true → In k l
unfolding has_key
has_key-In k [] h = absurd (cc)
has_key-In k (j ∷ l) h = go (text_eq j k) refl (has_key-In k l) h
  where
    go :
        (b : Bool)
        → text_eq j k ≡ b
        → (has_key k l ≡ true → In k l)
        → (b || has_key k l) ≡ true
        → In k (j ∷ l)
    go true same later e = inl ((text_eq_iff j k).0 same)
    go false other later e = inr (later e)

In-has_key : (k : Text) (l : List Text) → In k l → has_key k l ≡ true
unfolding has_key
In-has_key k [] i = absurd i
In-has_key k (j ∷ l) (inl same) = rw ((text_eq_iff j k).1 same) refl
In-has_key k (j ∷ l) (inr i) = rw (In-has_key k l i) (or_true (text_eq j k))
  where
    or_true : (b : Bool) → (b || true) ≡ true
    or_true true = refl
    or_true false = refl

module _ (existing : List Text) where
  -- The keys after a scan: those before it, and those that were met and do not exist.
  abbrev Grows : (Met : Text → Type 0) → (before after : List Text) → Type 0
  Grows Met before after =
      (k : Text) → In k after ↔ (In k before ⊎ (Met k × (has_key k existing ≡ false)))

  Grows-none : (l : List Text) → Grows (λ k. ⊥) l l
  Grows-none l k = (λ i. inl i, old)
    where
      old : In k l ⊎ (⊥ × (has_key k existing ≡ false)) → In k l
      old (inl i) = i
      old (inr (no_way, h)) = absurd no_way

  -- One scan after another.
  Grows-trans :
      (P Q : Text → Type 0) (a b c : List Text)
      → Grows P a b
      → Grows Q b c
      → Grows (λ k. P k ⊎ Q k) a c
  Grows-trans P Q a b c f g k = (λ i. out ((g k).0 i), back)
    where
      inner :
          In k a ⊎ (P k × (has_key k existing ≡ false))
          → In k a ⊎ ((P k ⊎ Q k) × (has_key k existing ≡ false))
      inner (inl i) = inl i
      inner (inr (p, h)) = inr (inl p, h)

      out :
          In k b ⊎ (Q k × (has_key k existing ≡ false))
          → In k a ⊎ ((P k ⊎ Q k) × (has_key k existing ≡ false))
      out (inl i) = inner ((f k).0 i)
      out (inr (q, h)) = inr (inr q, h)

      back : In k a ⊎ ((P k ⊎ Q k) × (has_key k existing ≡ false)) → In k c
      back (inl i) = (g k).1 (inl ((f k).1 (inl i)))
      back (inr (inl p, h)) = (g k).1 (inl ((f k).1 (inr (p, h))))
      back (inr (inr q, h)) = (g k).1 (inr (q, h))

  add_missing-Grows :
      (j : Text) (missing : List Text) → Grows (λ k. j ≡ k) missing (add_missing existing j missing)
  add_missing-Grows j missing k = go (has_key j existing) refl (has_key j missing) refl
    where
      go :
          (b : Bool)
          → has_key j existing ≡ b
          → (d : Bool) → has_key j missing ≡ d
          → In k (if b then missing else if d then missing else j ∷ missing)
            ↔ (In k missing ⊎ ((j ≡ k) × (has_key k existing ≡ false)))
      go true known d there = (λ i. inl i, back)
        where
          back : In k missing ⊎ ((j ≡ k) × (has_key k existing ≡ false)) → In k missing
          back (inl i) = i
          back (inr (same, h)) =
              absurd (false≢true (sym h ∙ ap (λ t. has_key t existing) (sym same) ∙ known))
      go false new true there = (λ i. inl i, back)
        where
          back : In k missing ⊎ ((j ≡ k) × (has_key k existing ≡ false)) → In k missing
          back (inl i) = i
          back (inr (same, h)) = subst (λ t. In t missing) same (has_key-In j missing there)
      go false new false there = (out, back)
        where
          out : In k (j ∷ missing) → In k missing ⊎ ((j ≡ k) × (has_key k existing ≡ false))
          out (inl same) = inr (same, ap (λ t. has_key t existing) (sym same) ∙ new)
          out (inr i) = inl i

          back : In k missing ⊎ ((j ≡ k) × (has_key k existing ≡ false)) → In k (j ∷ missing)
          back (inl i) = inr i
          back (inr (same, h)) = inl same

  add_all-Grows : (l missing : List Text) → Grows (λ k. In k l) missing (add_all existing l missing)
  unfolding add_all
  add_all-Grows [] missing = Grows-none missing
  add_all-Grows (j ∷ l) missing =
      Grows-trans (λ k. j ≡ k) (λ k. In k l) missing (add_missing existing j missing)
        (add_all existing l (add_missing existing j missing)) (add_missing-Grows j missing)
        (add_all-Grows l (add_missing existing j missing))

  found-Grows :
      (s : Text) (missing : List Text)
      → Grows (λ k. Finds BeginsSecret k s) missing (add_all existing (secret_refs s) missing)
  unfolding secret_refs
  found-Grows s missing k =
      let own = add_all-Grows (secret_refs s) missing k in (λ i. out (own.0 i), λ i. own.1 (back i))
    where
      out :
          In k missing ⊎ (In k (secret_refs s) × (has_key k existing ≡ false))
          → In k missing ⊎ (Finds BeginsSecret k s × (has_key k existing ≡ false))
      out (inl i) = inl i
      out (inr (i, new)) =
          inr (hits-Finds BeginsSecret match_secret match_secret-IsAnswer k s i, new)

      back :
          In k missing ⊎ (Finds BeginsSecret k s × (has_key k existing ≡ false))
          → In k missing ⊎ (In k (secret_refs s) × (has_key k existing ≡ false))
      back (inl i) = inl i
      back (inr (f, new)) =
          inr (Finds-hits BeginsSecret match_secret match_secret-IsAnswer k s f, new)

  mutual
    unfolding scan_for_secrets SomeText

    scan-Grows :
        (v : Value) (missing : List Text)
        → Grows (λ k. Mentions k v) missing (scan_for_secrets existing v missing)
    scan-Grows (string s) missing = found-Grows s missing
    scan-Grows (object f) missing = scan_fields-Grows f missing
    scan-Grows (array l) missing = scan_items-Grows l missing
    scan-Grows null missing = Grows-none missing
    scan-Grows nil_object missing = Grows-none missing
    scan-Grows (bool b) missing = Grows-none missing
    scan-Grows (int n) missing = Grows-none missing
    scan-Grows (float x) missing = Grows-none missing

    scan_items-Grows :
        (l : Items) (missing : List Text)
        → Grows (λ k. ItemsMention k l) missing (scan_items existing l missing)
    scan_items-Grows nil missing = Grows-none missing
    scan_items-Grows (cons v l) missing =
        Grows-trans (λ k. Mentions k v) (λ k. ItemsMention k l) missing
          (scan_for_secrets existing v missing)
          (scan_items existing l (scan_for_secrets existing v missing)) (scan-Grows v missing)
          (scan_items-Grows l (scan_for_secrets existing v missing))

    scan_fields-Grows :
        (f : Fields) (missing : List Text)
        → Grows (λ k. FieldsMention k f) missing (scan_fields existing f missing)
    scan_fields-Grows end missing = Grows-none missing
    scan_fields-Grows (field j v f) missing =
        Grows-trans (λ k. Mentions k v) (λ k. FieldsMention k f) missing
          (scan_for_secrets existing v missing)
          (scan_fields existing f (scan_for_secrets existing v missing)) (scan-Grows v missing)
          (scan_fields-Grows f (scan_for_secrets existing v missing))

  scan_steps-Grows :
      (l : List GeneratedStep) (missing : List Text)
      → Grows (λ k. StepsMention k l) missing (scan_steps existing l missing)
  unfolding scan_steps
  scan_steps-Grows [] missing = Grows-none missing
  scan_steps-Grows (s ∷ l) missing =
      Grows-trans (λ k. Mentions k (of_object s.config)) (λ k. StepsMention k l) missing
        (scan_for_secrets existing (of_object s.config) missing)
        (scan_steps existing l (scan_for_secrets existing (of_object s.config) missing))
        (scan-Grows (of_object s.config) missing)
        (scan_steps-Grows l (scan_for_secrets existing (of_object s.config) missing))

  has_key_new : (k : Text) → has_key k existing ≡ false ↔ (In k existing → ⊥)
  has_key_new k = (λ new i. false≢true (sym new ∙ In-has_key k existing i), other)
    where
      other : (In k existing → ⊥) → has_key k existing ≡ false
      other n = go (has_key k existing) refl
        where
          go : (b : Bool) → has_key k existing ≡ b → b ≡ false
          go true is = absurd (n (has_key-In k existing is))
          go false is = refl

  -- From an empty set on.
  pub scan_steps-In :
      (l : List GeneratedStep) (k : Text)
      → In k (scan_steps existing l []) ↔ (StepsMention k l × (In k existing → ⊥))
  scan_steps-In l k = (
    λ i. some_new ((scan_steps-Grows l [] k).0 i),
    λ h. (scan_steps-Grows l [] k).1 (inr (h.0, (has_key_new k).1 h.1)),
  )
    where
      some_new :
          ⊥ ⊎ (StepsMention k l × (has_key k existing ≡ false))
          → StepsMention k l × (In k existing → ⊥)
      some_new (inl no_way) = absurd no_way
      some_new (inr h) = (h.0, (has_key_new k).0 h.1)
