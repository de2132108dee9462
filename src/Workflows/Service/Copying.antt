-- ===== src/Workflows/Service/Copying.antt =====
-- The copied canvas is the canvas of the source under a renaming of its steps.
use react_go_workflow.Prelude.{
  ℕ, suc, ◌≤◌, ◌≡◌, ◌≢◌, refl, sym, ap, ◌∙◌, subst, inl, inr, List, [], ◌∷◌, map, In, ==_refl,
  arith, update,
}
use react_go_workflow.Engine.Types.{Uuid}
use react_go_workflow.Workflows.Tables.{CanvasStep, CanvasEdge, CanvasNote, Full}
use react_go_workflow.Workflows.Repository.{Canvas}
use react_go_workflow.Workflows.Service.{copy_steps, copy_edges, copy_notes, copy_canvas}

-- No id twice.
abbrev pub DistinctIds : List CanvasStep → Type 0
DistinctIds [] = Unit
DistinctIds (s ∷ l) = ((r : CanvasStep) → In r l → r.id ≢ s.id) × DistinctIds l

-- The ids that are drawn differ.
abbrev pub NeverTwice : (ℕ → Uuid) → Type 0
NeverTwice new_id = (i j : ℕ) → new_id i ≡ new_id j → i ≡ j

abbrev pub rename : (Uuid → Uuid) → CanvasStep → CanvasStep
rename f s = record s { id = f s.id }

-- An edge but for its id, with its ends renamed.
abbrev pub EdgeCopy : (Uuid → Uuid) → CanvasEdge → CanvasEdge → Type 0
EdgeCopy f e d = d ≡ record e {
  id = d.id;
  source_step_id = f e.source_step_id;
  target_step_id = f e.target_step_id;
}

-- A note but for its id.
abbrev pub NoteCopy : CanvasNote → CanvasNote → Type 0
NoteCopy x y = y ≡ record x { id = y.id }

-- One list has a partner for each entry of the other, in order.
abbrev pub Pairs : {A B : Type 0} → (A → B → Type 0) → List A → List B → Type 0
Pairs R [] [] = Unit
Pairs R [] (y ∷ ys) = ⊥
Pairs R (x ∷ xs) [] = ⊥
Pairs R (x ∷ xs) (y ∷ ys) = R x y × Pairs R xs ys

module _ (new_id : ℕ → Uuid) where
  -- An id that is not among the steps keeps its value.
  copy_steps-map_other :
      (n : ℕ) (ids : Uuid → Uuid) (l : List CanvasStep) (j : Uuid)
      → ((r : CanvasStep) → In r l → r.id ≢ j)
      → (copy_steps new_id n ids l).step_id_map j ≡ ids j
  unfolding copy_steps
  copy_steps-map_other n ids [] j h = refl
  copy_steps-map_other n ids (s ∷ l) j h =
      copy_steps-map_other (suc n) (update ids s.id (new_id n)) l j (λ r i. h r (inr i))
      ∙ ground (arith, h s (inl refl))

  copy_steps-map_self :
      (n : ℕ) (ids : Uuid → Uuid) (s : CanvasStep) (l : List CanvasStep)
      → ((r : CanvasStep) → In r l → r.id ≢ s.id)
      → (copy_steps new_id n ids (s ∷ l)).step_id_map s.id ≡ new_id n
  unfolding copy_steps
  copy_steps-map_self n ids s l h =
      copy_steps-map_other (suc n) (update ids s.id (new_id n)) l s.id h ∙ rw (==_refl s.id) refl

  -- The copies are the steps under the map.
  copy_steps-rename :
      (n : ℕ) (ids : Uuid → Uuid) (l : List CanvasStep)
      → DistinctIds l
      → (copy_steps new_id n ids l).steps ≡ map (rename (copy_steps new_id n ids l).step_id_map) l
  unfolding copy_steps
  copy_steps-rename n ids [] d = refl
  copy_steps-rename n ids (s ∷ l) d =
      rw
        (
          copy_steps-map_self n ids s l d.0,
          copy_steps-rename (suc n) (update ids s.id (new_id n)) l d.1,
        )
        refl

  -- Every step goes to an id that was drawn for it.
  copy_steps-drawn :
      (n : ℕ) (ids : Uuid → Uuid) (l : List CanvasStep)
      → DistinctIds l
      → (r : CanvasStep) → In r l
      → (k : ℕ) × (n ≤ k) × ((copy_steps new_id n ids l).step_id_map r.id ≡ new_id k)
  unfolding copy_steps
  copy_steps-drawn n ids [] d r i = absurd i
  copy_steps-drawn n ids (s ∷ l) d r (inl e) = (
    n,
    omega arith,
    ap (copy_steps new_id n ids (s ∷ l)).step_id_map (ap (λ z. z.id) (sym e))
        ∙ copy_steps-map_self n ids s l d.0,
  )
  copy_steps-drawn n ids (s ∷ l) d r (inr i) =
      let (k, le, is) = copy_steps-drawn (suc n) (update ids s.id (new_id n)) l d.1 r i in
      (k, omega arith, is)

  -- The first step goes to another id than a later one.
  head_differs :
      (n : ℕ) (ids : Uuid → Uuid) (x : CanvasStep) (l : List CanvasStep)
      → NeverTwice new_id
      → DistinctIds (x ∷ l)
      → (s : CanvasStep) → x ≡ s
      → (r : CanvasStep) → In r l
      → (copy_steps new_id n ids (x ∷ l)).step_id_map s.id
        ≡ (copy_steps new_id n ids (x ∷ l)).step_id_map r.id
      → ⊥
  unfolding copy_steps
  head_differs n ids x l never d s p r j e =
      let (k, le, is) = copy_steps-drawn (suc n) (update ids x.id (new_id n)) l d.1 r j in
      let first =
        subst (λ (z : CanvasStep). (copy_steps new_id n ids (x ∷ l)).step_id_map z.id ≡ new_id n) p
          (copy_steps-map_self n ids x l d.0) in
      omega (arith, never n k (sym first ∙ e ∙ is))

  copy_steps-one_to_one :
      (n : ℕ) (ids : Uuid → Uuid) (l : List CanvasStep)
      → NeverTwice new_id
      → DistinctIds l
      → (s : CanvasStep) → In s l
      → (r : CanvasStep) → In r l
      → (copy_steps new_id n ids l).step_id_map s.id ≡ (copy_steps new_id n ids l).step_id_map r.id
      → s.id ≡ r.id
  unfolding copy_steps
  copy_steps-one_to_one n ids [] never d s i r j e = absurd i
  copy_steps-one_to_one n ids (x ∷ l) never d s (inl p) r (inl q) e = ap (λ z. z.id) (sym p ∙ q)
  copy_steps-one_to_one n ids (x ∷ l) never d s (inl p) r (inr j) e =
      absurd (head_differs n ids x l never d s p r j e)
  copy_steps-one_to_one n ids (x ∷ l) never d s (inr i) r (inl q) e =
      absurd (head_differs n ids x l never d r q s i (sym e))
  copy_steps-one_to_one n ids (x ∷ l) never d s (inr i) r (inr j) e =
      copy_steps-one_to_one (suc n) (update ids x.id (new_id n)) l never d.1 s i r j e

  copy_edges-Pairs :
      (n : ℕ) (f : Uuid → Uuid) (l : List CanvasEdge)
      → Pairs (EdgeCopy f) l (copy_edges new_id n f l)
  unfolding copy_edges
  copy_edges-Pairs n f [] = tt
  copy_edges-Pairs n f (e ∷ l) = (refl, copy_edges-Pairs (suc n) f l)

  copy_notes-Pairs : (n : ℕ) (l : List CanvasNote) → Pairs NoteCopy l (copy_notes new_id n l)
  unfolding copy_notes
  copy_notes-Pairs n [] = tt
  copy_notes-Pairs n (x ∷ l) = (refl, copy_notes-Pairs (suc n) l)

-- A canvas is a copy: the steps are those of the source with new ids, one for each, the edges join the
-- copies of what the source's edges join, and the notes say the same.
pub record IsCopy (new_id : ℕ → Uuid) (n : ℕ) (f : Full) (c : Canvas) : Type 0 where
  pub ids : Uuid → Uuid
  pub steps : c.steps ≡ map (rename ids) f.steps
  pub one_to_one :
      (s : CanvasStep)
      → In s f.steps
      → (r : CanvasStep) → In r f.steps
      → ids s.id ≡ ids r.id
      → s.id ≡ r.id
  pub drawn : (s : CanvasStep) → In s f.steps → (k : ℕ) × (n ≤ k) × (ids s.id ≡ new_id k)
  pub edges : Pairs (EdgeCopy ids) f.edges c.edges
  pub notes : Pairs NoteCopy f.notes c.notes

-- Clone copies a canvas whose steps have different ids: the new steps are the old ones with new ids,
-- different for different steps, each edge joins the copies of the two steps that it joined and keeps its
-- outputs, type and condition, and the notes are the same but for their ids.
pub copy_canvas-IsCopy :
    (new_id : ℕ → Uuid)
    → NeverTwice new_id
    → (n : ℕ) (f : Full) → DistinctIds f.steps
    → IsCopy new_id n f (copy_canvas new_id n f)
unfolding copy_canvas
copy_canvas-IsCopy new_id never n f d = record {
  ids = (copy_steps new_id n (λ _. 0) f.steps).step_id_map;
  steps = copy_steps-rename new_id n (λ _. 0) f.steps d;
  one_to_one = copy_steps-one_to_one new_id n (λ _. 0) f.steps never d;
  drawn = copy_steps-drawn new_id n (λ _. 0) f.steps d;
  edges = copy_edges-Pairs new_id _ _ f.edges;
  notes = copy_notes-Pairs new_id _ f.notes;
}
