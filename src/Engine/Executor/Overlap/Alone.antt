-- ===== src/Engine/Executor/Overlap/Alone.antt =====
-- internal/engine/executor.go: the moves of a call of Execute, where no other call comes between them.
use react_go_workflow.Prelude.{
  ◌≡◌, refl, subst, inl, inr, Bool, true, false, some, List, [], ◌∷◌, ◌++◌, ◌==◌, ==_refl, arith,
  Bool-cases, Option-cases,
}
use mathlib.Core.List.{append_assoc, append-nil}
use react_go_workflow.Engine.Types.{Uuid, Step, Workflow}
use react_go_workflow.Engine.Executor.{
  Execution, Server, Answers, create_step, Executed, create_step_rows, add_row, create,
}
use react_go_workflow.Engine.Executor.Overlap.{
  Phase, admitted, created, returned, add_step_row, has_id, create_fails, creates, adds_step,
  step_fails, starts, Runs, more,
}

-- Rows with another id stay as they are.
add_step_row_absent :
    (id s : Uuid) (l : List Execution) → has_id id l ≡ false → add_step_row id s l ≡ l
unfolding add_step_row has_id
add_step_row_absent id s [] h = refl
add_step_row_absent id s (x ∷ l) h =
    let later = add_step_row_absent id s l in
    elim (Bool-cases (x.id == id)) [
      | inl hit ↦ absurd (ground (arith, h, hit))
      | inr miss ↦ rw (miss, later (ground (arith, h, miss))) refl
    ]

module _ (a : Answers) (v : Server) (wf : Workflow) where
  -- How the loop over the steps leaves a call.
  abbrev after : Uuid → Bool → Phase
  after id true = created wf id []
  after id false = returned id (some create_step)

  row_added :
      (id s : Uuid) (rows : List Uuid)
      → has_id id v.executions ≡ false
      → (record (add_row id wf.id rows v) {
        executions = add_step_row id s (add_row id wf.id rows v).executions;
      })
        ≡ add_row id wf.id (rows ++ s ∷ []) v
  unfolding add_step_row
  row_added id s rows new = rw (==_refl id, add_step_row_absent id s v.executions new) refl

  adds_rows :
      {u : Server} {p : Phase} (id : Uuid) (l : List Step) (rows : List Uuid)
      → has_id id v.executions ≡ false
      → Runs u p (add_row id wf.id rows v) (created wf id l)
      → Runs u p
          (add_row id wf.id (rows ++ (create_step_rows a.can_create l).rows) v)
          (after id (create_step_rows a.can_create l).complete)
  unfolding create_step_rows
  adds_rows id [] rows new r = rw (append-nil rows) r
  adds_rows {u} {p} id (s ∷ l) rows new r = elim (Bool-cases (a.can_create s.id)) [
    | inr fails ↦
        rw (fails, append-nil rows) (more r (step_fails (add_row id wf.id rows v) wf id s l))
    | inl works ↦
        let later = create_step_rows a.can_create l in
        let rest = adds_rows id l (rows ++ s.id ∷ []) new (
          subst (λ x. Runs u p x (created wf id l)) (row_added id s.id rows new)
            (more r (adds_step (add_row id wf.id rows v) wf id s l))) in
        rw works (
          subst (λ x. Runs u p (add_row id wf.id x v) (after id later.complete))
            (append_assoc rows (s.id ∷ []) later.rows) rest)
  ]

  -- The call has returned, from the server and the phase it had first.
  abbrev pub Returns : Phase → Executed → Type 0
  Returns p x = Runs v p x.server (returned x.id x.error)

  module _ (fresh : (id : Uuid) → a.new_id ≡ some id → has_id id v.executions ≡ false) where
    pub create-Returns : {p : Phase} → Runs v p v (admitted wf) → Returns p (create a wf v)
    create-Returns {p} r = elim (Option-cases a.new_id) [
      | inl failed ↦ rw failed (more r (create_fails v wf))
      | inr (id, new) ↦
          let made = create_step_rows a.can_create wf.steps in
          let t = add_row id wf.id made.rows v in
          let rows : Runs v p t (after id made.complete) =
            adds_rows id wf.steps [] (fresh id new) (more r (creates v wf id (fresh id new))) in
          elim (Bool-cases made.complete) [
            | inl all ↦
                rw (new, all)
                  (more (subst (λ b. Runs v p t (after id b)) all rows) (starts t wf id))
            | inr some' ↦ rw (new, some') (subst (λ b. Runs v p t (after id b)) some' rows)
          ]
    ]
