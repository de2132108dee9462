-- ===== src/Ai/Enrich/Known.antt =====
-- When the two loops of enrichResult find nothing invalid.
use mathlib.Core.Bool.{false≢true}
use react_go_workflow.Prelude.{
  ℕ, suc, ◌≡◌, ◌≢◌, refl, sym, ap, ◌∙◌, ◌⊎◌, inl, inr, Bool, true, false, Option, none, some, List,
  [], ◌∷◌, ◌++◌, codes, map, Text, text_eq, text_eq_iff, lookup, insert, lookup-insert, All, In,
  if◌then◌else◌,
}
use react_go_workflow.Ai.Enrich.{GeneratedStep, Checked, check_steps, response_step}

abbrev pub Details : Type 0
Details = List (Text × Text)

abbrev unknown_type : GeneratedStep → Text
unknown_type s = codes "unknown step type: " ++ s.step_type

abbrev pub Has : Text → Details → Type 0
Has k m = (v : Text) × (lookup k m ≡ some v)

pub insert-full : (k v : Text) (m : Details) → insert k v m ≢ []
unfolding insert
insert-full k v [] = λ e. cc
insert-full k v ((j, w) ∷ m) = go (text_eq j k)
  where
    go : (b : Bool) → (if b then (k, v) ∷ m else (j, w) ∷ insert k v m) ≢ []
    go true e = cc
    go false e = cc

module _ (types : Details) (new_id : ℕ → Text) where
  abbrev pub IsKnown : GeneratedStep → Type 0
  IsKnown s = Has s.step_type types

  -- No step is found invalid only if all are known.
  pub check_steps-IsKnown :
      (n : ℕ) (names invalid : Details) (l : List GeneratedStep)
      → (check_steps types new_id n names invalid l).invalid_types ≡ []
      → All IsKnown l × (invalid ≡ [])
  unfolding check_steps
  check_steps-IsKnown n names invalid [] h = (tt, h)
  check_steps-IsKnown n names invalid (s ∷ l) h =
      go (lookup s.step_type types) refl
        (check_steps-IsKnown n names (insert s.name (unknown_type s) invalid) l)
        (check_steps-IsKnown (suc n) (insert s.name (new_id n) names) invalid l) h
    where
      go :
          (o : Option Text)
          → lookup s.step_type types ≡ o
          → ((check_steps types new_id n names
                  (insert s.name (unknown_type s) invalid)
                  l).invalid_types
                ≡ []
              → All IsKnown l × (insert s.name (unknown_type s) invalid ≡ []))
          → ((check_steps types new_id
                  (suc n)
                  (insert s.name (new_id n) names)
                  invalid
                  l).invalid_types
                ≡ []
              → All IsKnown l × (invalid ≡ []))
          → (elim o as (λ x. Checked) [
            | none ↦ check_steps types new_id n names (insert s.name (unknown_type s) invalid) l
            | some type_id ↦
                record (check_steps types new_id
                  (suc n)
                  (insert s.name (new_id n) names)
                  invalid
                  l) {
                    response_steps =
                        response_step types new_id (new_id n) type_id s
                        ∷ (check_steps types new_id
                            (suc n)
                            (insert s.name (new_id n) names)
                            invalid
                            l).response_steps;
                  }
          ]).invalid_types
            ≡ []
          → All IsKnown (s ∷ l) × (invalid ≡ [])
      go none is bad good e = absurd (insert-full s.name (unknown_type s) invalid (bad e).1)
      go (some id) is bad good e = (((id, is), (good e).0), (good e).1)

  -- And if all are known none is, each has a step in the answer with its name, type and config, and the
  -- names that are filed are those of the steps.
  pub record Resolved (l : List GeneratedStep) (names invalid : Details) (c : Checked)
      : Type 0 where
    pub no_more : c.invalid_types ≡ invalid
    pub answered : map (λ r. r.name) c.response_steps ≡ map (λ s. s.name) l
    pub typed : map (λ r. r.step_type) c.response_steps ≡ map (λ s. s.step_type) l
    pub configured : map (λ r. r.config) c.response_steps ≡ map (λ s. s.config) l
    pub type_ids : All (λ r. lookup r.step_type types ≡ some r.step_type_id) c.response_steps
    pub filed : (k : Text) → Has k c.step_name_to_id → Has k names ⊎ In k (map (λ s. s.name) l)
    pub filed_all : (k : Text) → Has k names ⊎ In k (map (λ s. s.name) l) → Has k c.step_name_to_id

  Has-insert : (k j v : Text) (m : Details) → Has j (insert k v m) → (k ≡ j) ⊎ Has j m
  Has-insert k j v m (w, is) = go (text_eq k j) refl (sym (lookup-insert k j v m) ∙ is)
    where
      go :
          (b : Bool)
          → text_eq k j ≡ b
          → (if b then some v else lookup j m) ≡ some w
          → (k ≡ j) ⊎ Has j m
      go true same e = inl ((text_eq_iff k j).0 same)
      go false other e = inr (w, e)

  insert-Has : (k j v : Text) (m : Details) → (k ≡ j) ⊎ Has j m → Has j (insert k v m)
  insert-Has k j v m h = go (text_eq k j) refl h
    where
      go : (b : Bool) → text_eq k j ≡ b → (k ≡ j) ⊎ Has j m → Has j (insert k v m)
      go true same e = (v, lookup-insert k j v m ∙ rw same refl)
      go false other (inl e) = absurd (false≢true (sym other ∙ (text_eq_iff k j).1 e))
      go false other (inr (w, is)) = (w, lookup-insert k j v m ∙ rw other is)

  pub check_steps-Resolved :
      (n : ℕ) (names invalid : Details) (l : List GeneratedStep)
      → All IsKnown l
      → Resolved l names invalid (check_steps types new_id n names invalid l)
  unfolding check_steps
  check_steps-Resolved n names invalid [] h = record {
    no_more = refl;
    answered = refl;
    typed = refl;
    configured = refl;
    type_ids = tt;
    filed = λ k has. inl has;
    filed_all = λ k h. only k h;
  }
    where
      only : (k : Text) → Has k names ⊎ ⊥ → Has k names
      only k (inl has) = has
      only k (inr i) = elim i [ ]
  check_steps-Resolved n names invalid (s ∷ l) ((id, is), h) =
      let r = check_steps-Resolved (suc n) (insert s.name (new_id n) names) invalid l h in
      rw (is, check_steps)
        (record {
          no_more = r.no_more;
          answered = ap (λ t. s.name ∷ t) r.answered;
          typed = ap (λ t. s.step_type ∷ t) r.typed;
          configured = ap (λ t. s.config ∷ t) r.configured;
          type_ids = (is, r.type_ids);
          filed = λ k has. earlier k (r.filed k has);
          filed_all = λ k has. r.filed_all k (later k has);
        })
    where
      earlier :
          (k : Text)
          → Has k (insert s.name (new_id n) names) ⊎ In k (map (λ s. s.name) l)
          → Has k names ⊎ In k (map (λ s. s.name) (s ∷ l))
      earlier k (inr i) = inr (inr i)
      earlier k (inl has) = split (Has-insert s.name k (new_id n) names has)
        where
          split : (s.name ≡ k) ⊎ Has k names → Has k names ⊎ In k (map (λ s. s.name) (s ∷ l))
          split (inl e) = inr (inl e)
          split (inr old) = inl old

      later :
          (k : Text)
          → Has k names ⊎ In k (map (λ s. s.name) (s ∷ l))
          → Has k (insert s.name (new_id n) names) ⊎ In k (map (λ s. s.name) l)
      later k (inl has) = inl (insert-Has s.name k (new_id n) names (inr has))
      later k (inr (inl e)) = inl (insert-Has s.name k (new_id n) names (inl e))
      later k (inr (inr i)) = inr i
