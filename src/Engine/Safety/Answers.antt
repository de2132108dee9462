-- ===== src/Engine/Safety/Answers.antt =====
-- Every ready step is one of the workflow, and has a result in its wave.
use react_go_workflow.Prelude.{
  ◌≡◌, ◌≢◌, sym, ◌∙◌, inl, inr, true, false, none, some, List, [], ◌∷◌, map, arith, ==_refl,
  Option-cases, Bool-cases, In, All, subst, keep, is_positive,
}
use react_go_workflow.Engine.Context.{ExecContext}
use react_go_workflow.Engine.Types.{Uuid, Step, Registry}
use react_go_workflow.Engine.Graph.{Platform, step_by_id}
use react_go_workflow.Engine.Skip.{Run}
use react_go_workflow.Engine.Dag.{StepOutcome, is_ready, ready, execute_wave}
use react_go_workflow.Engine.Loop.Termination.{ready-In}
use react_go_workflow.Engine.Safety.Results.{step_by_id-id}
use react_go_workflow.Engine.Safety.Wave.{ids_of}

abbrev pub IsKnown : List Step → Uuid → Type 0
IsKnown steps id = step_by_id steps id ≢ none

pub In-IsKnown : (steps : List Step) (id : Uuid) → In id (map (λ s. s.id) steps) → IsKnown steps id
unfolding step_by_id
In-IsKnown [] id i e = absurd i
In-IsKnown (s ∷ steps) id i e = elim (Option-cases (step_by_id steps id)) [
  | inr (later, found) ↦ absurd (some_none (rw (found, step_by_id) at e))
  | inl missing ↦ elim i [
    | inl same ↦ some_none (rw (missing, same, ==_refl id, step_by_id) at e)
    | inr j ↦ In-IsKnown steps id j missing
  ]
]
  where
    some_none : {x : Step} → some x ≡ none → ⊥
    some_none q = absurd (cc)

module _ (p : Platform) (registry : Registry) (steps : List Step) (c : ExecContext) where
  abbrev results : List Uuid → List StepOutcome
  results ids = execute_wave p registry steps c ids

  pub execute_wave-IsKnown : (ids : List Uuid) → All (λ x. IsKnown steps x.0) (results ids)
  unfolding execute_wave
  execute_wave-IsKnown [] = tt
  execute_wave-IsKnown (id ∷ ids) = elim (Option-cases (step_by_id steps id)) [
    | inl missing ↦ rw (missing, execute_wave) (execute_wave-IsKnown ids)
    | inr (s, found) ↦
        rw (found, execute_wave)
          (
            (λ e. some_none (sym found ∙ rw (sym (step_by_id-id steps id s found)) e)),
            execute_wave-IsKnown ids,
          )
  ]
    where
      some_none : {x : Step} → some x ≡ none → ⊥
      some_none q = absurd (cc)

  pub execute_wave-all :
      (ids : List Uuid) (j : Uuid) → In j ids → IsKnown steps j → In j (ids_of (results ids))
  unfolding execute_wave
  execute_wave-all [] j i known = i
  execute_wave-all (id ∷ ids) j i known = elim (Option-cases (step_by_id steps id)) [
    | inl missing ↦
        rw (missing, execute_wave)
          (elim i [
            | inl same ↦ absurd (known (rw (sym same) missing))
            | inr k ↦ execute_wave-all ids j k known
          ])
    | inr (s, found) ↦
        rw (found, execute_wave)
          (elim i [
            | inl same ↦ inl (step_by_id-id steps id s found ∙ same)
            | inr k ↦ inr (execute_wave-all ids j k known)
          ])
  ]

-- A ready step has a result.
pub ready-answered :
    (p : Platform) (registry : Registry) (steps : List Step) (r : Run) (j : Uuid)
    → In j (ready steps r)
    → In j (ids_of (execute_wave p registry steps r.context (ready steps r)))
ready-answered p registry steps r j i =
    execute_wave-all p registry steps r.context (ready steps r) j i
      (In-IsKnown steps j (ready-In steps r j i))

pub All-ids :
    (P : Uuid → Type 0) (l : List StepOutcome)
    → All (λ x. P x.0) l
    → (j : Uuid) → In j (ids_of l)
    → P j
All-ids P [] h j i = absurd i
All-ids P (x ∷ l) h j (inl e) = subst P e h.0
All-ids P (x ∷ l) h j (inr i) = All-ids P l h.1 j i

-- With no ready step, every step is done or waits.
pub ready-none :
    (steps : List Step) (r : Run) (id : Uuid)
    → ready steps r ≡ []
    → In id (map (λ s. s.id) steps)
    → r.done id ≡ false
    → is_positive (r.in_degree id) ≡ true
unfolding ready
ready-none [] r id e i new = absurd i
ready-none (s ∷ steps) r id e i new = elim (Bool-cases (is_ready r s)) [
  | inl yes' ↦ absurd (cons_nil (rw (yes', keep) at e))
  | inr no' ↦ elim i [
    | inl same ↦ ground (arith, same)
    | inr j ↦ ready-none steps r id (rw (no', keep) at e) j new
  ]
]
  where
    cons_nil : {x : Uuid} {l : List Uuid} → x ∷ l ≡ [] → ⊥
    cons_nil q = absurd cc
