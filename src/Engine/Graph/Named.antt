-- ===== src/Engine/Graph/Named.antt =====
-- Which step a reference names, and that the code resolves it to that step.
use react_go_workflow.Prelude.{
  ◌≡◌, ◌≢◌, refl, sym, ap, ◌∙◌, inl, inr, Bool, true, false, Option, none, some, List, [], ◌∷◌, In,
  Text, text_eq, text_eq_iff, length, ◌==◌, ==_iff, if◌then◌else◌,
}
use react_go_workflow.Engine.Types.{Uuid, Step}
use react_go_workflow.Engine.Graph.{Platform, step_by_id, step_by_name, resolve_ref}

-- What the graph relies on: the texts of ids differ and are of one length, and `range` visits every key.
pub record PlatformLaws (p : Platform) : Type 0 where
  pub injective : (a b : Uuid) → p.uuid_string a ≡ p.uuid_string b → a ≡ b
  pub same_length : (a b : Uuid) → length (p.uuid_string a) ≡ length (p.uuid_string b)
  pub visits : (r : Text) (l : List Text) → In r l → In r (p.visit l)

-- The reference is the name of the step and of no step with another id, or it is no name and the text of
-- its id.
pub data Names (p : Platform) (steps : List Step) (ref : Text) (t : Step) : Type 0 where
  by_name :
      t.name ≡ ref → ((u : Step) → In u steps → u.name ≡ ref → u.id ≡ t.id) → Names p steps ref t
  by_id :
      ((u : Step) → In u steps → u.name ≢ ref) → p.uuid_parse ref ≡ some t.id → Names p steps ref t

-- What a lookup by name finds.
abbrev FoundByName : List Step → Text → Option Step → Type 0
FoundByName steps ref none = (u : Step) → In u steps → u.name ≢ ref
FoundByName steps ref (some s) = In s steps × (s.name ≡ ref)

step_by_name-Found :
    (steps : List Step) (ref : Text) → FoundByName steps ref (step_by_name steps ref)
unfolding step_by_name
step_by_name-Found [] ref = λ u i. absurd i
step_by_name-Found (x ∷ steps) ref = go (step_by_name steps ref) (step_by_name-Found steps ref)
  where
    first :
        (b : Bool)
        → text_eq x.name ref ≡ b
        → FoundByName steps ref none
        → FoundByName (x ∷ steps) ref (if b then some x else none)
    first true is h = (inl refl, (text_eq_iff x.name ref).0 is)
    first false is h = λ u i. elim i [
      | inl e ↦ λ named.
          differs (sym is ∙ (text_eq_iff x.name ref).1 (ap (λ (y : Step). y.name) e ∙ named))
      | inr j ↦ h u j
    ]
      where
        differs : false ≡ true → ⊥
        differs e = absurd cc

    go :
        (o : Option Step)
        → FoundByName steps ref o
        → FoundByName (x ∷ steps) ref (elim o [
          | some later ↦ some later
          | none ↦ if text_eq x.name ref then some x else none
        ])
    go (some s) h = (inr h.0, h.1)
    go none h = first (text_eq x.name ref) refl h

step_by_id_known :
    (steps : List Step) (t : Step) → In t steps → (s : Step) × (step_by_id steps t.id ≡ some s)
unfolding step_by_id
step_by_id_known [] t i = absurd i
step_by_id_known (x ∷ steps) t (inl e) = go (step_by_id steps t.id)
  where
    go :
        (o : Option Step)
        → (s : Step) × ((elim o [
          | some later ↦ some later
          | none ↦ if x.id == t.id then some x else none
        ])
            ≡ some s)
    go (some s) = (s, refl)
    go none = (x, rw ((==_iff x.id t.id).1 (ap (λ (y : Step). y.id) e)) refl)
step_by_id_known (x ∷ steps) t (inr i) = let (s, is) = step_by_id_known steps t i in (s, rw is refl)

module _ (p : Platform) (steps : List Step) where
  -- What a reference names is what the code resolves it to.
  pub resolve_ref-Names :
      (ref : Text) (t : Step) → In t steps → Names p steps ref t → resolve_ref p steps ref ≡ t.id
  unfolding resolve_ref
  resolve_ref-Names ref t i (by_name is only) =
      go (step_by_name steps ref) refl (step_by_name-Found steps ref)
    where
      go :
          (o : Option Step)
          → step_by_name steps ref ≡ o
          → FoundByName steps ref o
          → resolve_ref p steps ref ≡ t.id
      go none e h = absurd (h t i is)
      go (some s) e h = rw (e, resolve_ref) (only s h.0 h.1)
  resolve_ref-Names ref t i (by_id no_name read) =
      go (step_by_name steps ref) refl (step_by_name-Found steps ref)
    where
      go :
          (o : Option Step)
          → step_by_name steps ref ≡ o
          → FoundByName steps ref o
          → resolve_ref p steps ref ≡ t.id
      go none e h =
          let (s, known) = step_by_id_known steps t i in
          rw (e, read, resolve_ref) (ap (λ o. elim o [ none ↦ 0 | some _ ↦ t.id ]) known)
      go (some s) e h = absurd (no_name s h.0 h.1)
