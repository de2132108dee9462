-- ===== src/Workflows/Repository/Joining.antt =====
-- SaveCanvas breaks no foreign key where the edges of the canvas join its steps.
use react_go_workflow.Prelude.{
  ◌≡◌, ◌≢◌, refl, sym, ap, ◌∙◌, not, ◌⊎◌, inl, inr, List, [], ◌∷◌, ◌++◌, map, keep, In, ◌==◌, arith,
  In-of-keep, In-append_left, In-append_right,
}
use react_go_workflow.Engine.Types.{Uuid}
use react_go_workflow.Workflows.Tables.{
  Tables, CanvasStep, CanvasEdge, CanvasNote, StepRow, WorkflowRow, StepExecutionRow,
}
use react_go_workflow.Workflows.Database.{
  delete_step_executions, delete_edges, delete_steps, delete_notes, insert_step, insert_edge,
  insert_note, apply,
}
use react_go_workflow.Workflows.Repository.{
  Canvas, write_step, write_edge, write_note, canvas_deletions, insertions,
}
use react_go_workflow.Workflows.Repository.Keys.{Through}
use react_go_workflow.Workflows.Repository.Integrity.{
  Refers-add_child, Refers-add_parent, Joined, Stepped, Source, Target, IsConsistent, None-keep,
  NoStepExecutions-keep, other_than,
}
use react_go_workflow.Workflows.Repository.Integrity.Deletions.{
  delete_step_executions-IsConsistent, delete_edges-IsConsistent, delete_steps-IsConsistent,
  delete_notes-IsConsistent,
}

-- The edges join steps of the canvas.
abbrev pub EdgesJoin : Canvas → Type 0
EdgesJoin c =
    (e : CanvasEdge)
    → In e c.edges
    → ((s : CanvasStep) × In s c.steps × (s.id ≡ e.source_step_id))
      × ((s : CanvasStep) × In s c.steps × (s.id ≡ e.target_step_id))

-- The ids of its steps belong to no step of another workflow.
abbrev pub OwnIds : Uuid → Canvas → Tables → Type 0
OwnIds wf c t =
    (s : CanvasStep)
    → In s c.steps
    → (r : StepRow) → In r t.steps
    → r.id ≡ s.id
    → r.workflow_id ≡ wf

abbrev pub Exists : Uuid → Tables → Type 0
Exists wf t = (w : WorkflowRow) × In w t.workflows × (w.id ≡ wf)

In-last : {A : Type 0} (a x : A) (xs : List A) → In x (xs ++ a ∷ []) → In x xs ⊎ (a ≡ x)
In-last a x [] (inl e) = inr e
In-last a x [] (inr i) = absurd i
In-last a x (y ∷ xs) (inl e) = inl (inl e)
In-last a x (y ∷ xs) (inr i) = widen (In-last a x xs i)
  where
    widen : In x xs ⊎ (a ≡ x) → In x (y ∷ xs) ⊎ (a ≡ x)
    widen (inl j) = inl (inr j)
    widen (inr e) = inr e

module _ (wf : Uuid) (t : Tables) (h : IsConsistent t) (there : Exists wf t) where
  -- A step whose id no execution refers to.
  insert_step-IsConsistent :
      (s : CanvasStep)
      → ((x : StepExecutionRow) → In x t.step_executions → s.id ≢ x.step_id)
      → IsConsistent (apply (insert_step (write_step wf s)) t)
  unfolding apply write_step
  insert_step-IsConsistent s unused =
      let row = write_step wf s in
      ground (
        arith,
        Refers-add_child t.steps row t.workflows (λ x w. w.id ≡ x.workflow_id) h.steps there,
        Refers-add_parent t.edges t.steps row Source h.sources,
        Refers-add_parent t.edges t.steps row Target h.targets,
        Refers-add_parent t.step_executions t.steps row Stepped h.stepped,
        joined,
      )
    where
      joined : Joined t.step_executions (t.steps ++ write_step wf s ∷ []) t.workflow_executions
      joined x i r j k y l m = old (In-last (write_step wf s) r t.steps j)
        where
          old : In r t.steps ⊎ (write_step wf s ≡ r) → r.workflow_id ≡ y.workflow_id
          old (inl before) = h.joined x i r before k y l m
          old (inr new) = absurd (unused x i (ap (λ z. z.id) new ∙ k))

  -- An edge whose ends are steps of the workflow.
  insert_edge-IsConsistent :
      (e : CanvasEdge)
      → ((s : StepRow) × In s t.steps × Source (write_edge wf e) s)
      → ((s : StepRow) × In s t.steps × Target (write_edge wf e) s)
      → IsConsistent (apply (insert_edge (write_edge wf e)) t)
  unfolding apply write_edge
  insert_edge-IsConsistent e source target =
      let row = write_edge wf e in
      ground (
        arith,
        Refers-add_child t.edges row t.workflows (λ x w. w.id ≡ x.workflow_id) h.edges there,
        Refers-add_child t.edges row t.steps Source h.sources source,
        Refers-add_child t.edges row t.steps Target h.targets target,
      )

  insert_note-IsConsistent :
      (n : CanvasNote) → IsConsistent (apply (insert_note (write_note wf n)) t)
  unfolding apply write_note
  insert_note-IsConsistent n = ground (
    arith,
    Refers-add_child t.canvas_notes (write_note wf n) t.workflows (λ x w. w.id ≡ x.workflow_id)
        h.notes there,
  )

module _ (wf : Uuid) where
  -- What the later statements need of the tables.
  abbrev Unused : List CanvasStep → Tables → Type 0
  Unused l t =
      (s : CanvasStep) → In s l → (x : StepExecutionRow) → In x t.step_executions → s.id ≢ x.step_id

  abbrev HasSteps : List CanvasStep → Tables → Type 0
  HasSteps l t = (s : CanvasStep) → In s l → In (write_step wf s) t.steps

  insert_notes-Through :
      (l : List CanvasNote) (t : Tables)
      → IsConsistent t
      → Exists wf t
      → Through IsConsistent (map (λ n. insert_note (write_note wf n)) l) t
  unfolding apply
  insert_notes-Through [] t h there = h
  insert_notes-Through (n ∷ l) t h there = (
    h,
    insert_notes-Through l (apply (insert_note (write_note wf n)) t)
        (insert_note-IsConsistent wf t h there n) there,
  )

  abbrev Ends : List CanvasStep → List CanvasEdge → Type 0
  Ends steps l =
      (e : CanvasEdge)
      → In e l
      → ((s : CanvasStep) × In s steps × (s.id ≡ e.source_step_id))
        × ((s : CanvasStep) × In s steps × (s.id ≡ e.target_step_id))

  insert_edges-Through :
      (c : Canvas) (l : List CanvasEdge) (t : Tables)
      → IsConsistent t
      → Exists wf t
      → HasSteps c.steps t
      → Ends c.steps l
      → Through IsConsistent
          (map (λ e. insert_edge (write_edge wf e)) l
            ++ map (λ n. insert_note (write_note wf n)) c.notes)
          t
  unfolding apply write_step write_edge
  insert_edges-Through c [] t h there has ends = insert_notes-Through c.notes t h there
  insert_edges-Through c (e ∷ l) t h there has ends =
      let ((s, i, source), (r, j, target)) = ends e (inl refl) in
      (
        h,
        insert_edges-Through c l (apply (insert_edge (write_edge wf e)) t)
            (insert_edge-IsConsistent wf t h there e (write_step wf s, has s i, (source, refl))
              (write_step wf r, has r j, (target, refl)))
            there has (λ d k. ends d (inr k)),
      )

  -- Each step of the canvas is still to come, or there.
  abbrev Coming : List CanvasStep → List CanvasStep → Tables → Type 0
  Coming steps l t = (s : CanvasStep) → In s steps → In s l ⊎ In (write_step wf s) t.steps

  insert_step-Coming :
      (s : CanvasStep) (l : List CanvasStep) (t : Tables) (r : CanvasStep)
      → In r (s ∷ l) ⊎ In (write_step wf r) t.steps
      → In r l ⊎ In (write_step wf r) (t.steps ++ write_step wf s ∷ [])
  insert_step-Coming s l t r (inl (inl e)) = inr (
      In-append_right (write_step wf r) t.steps (write_step wf s ∷ []) (inl (ap (write_step wf) e)))
  insert_step-Coming s l t r (inl (inr i)) = inl i
  insert_step-Coming s l t r (inr j) =
      inr (In-append_left (write_step wf r) t.steps (write_step wf s ∷ []) j)

  insert_steps-Through :
      (c : Canvas) (l : List CanvasStep) (t : Tables)
      → IsConsistent t
      → Exists wf t
      → Unused l t
      → Coming c.steps l t
      → Ends c.steps c.edges
      → Through IsConsistent
          (map (λ s. insert_step (write_step wf s)) l
            ++ (map (λ e. insert_edge (write_edge wf e)) c.edges
                ++ map (λ n. insert_note (write_note wf n)) c.notes))
          t
  unfolding apply
  insert_steps-Through c [] t h there unused has ends =
      insert_edges-Through c c.edges t h there (λ s i. arrived s (has s i)) ends
    where
      arrived :
          (s : CanvasStep) → In s [] ⊎ In (write_step wf s) t.steps → In (write_step wf s) t.steps
      arrived s (inl i) = absurd i
      arrived s (inr j) = j
  insert_steps-Through c (s ∷ l) t h there unused has ends = (
    h,
    insert_steps-Through c l (apply (insert_step (write_step wf s)) t)
        (insert_step-IsConsistent wf t h there s (unused s (inl refl))) there
        (λ r i. unused r (inr i)) (λ r i. insert_step-Coming s l t r (has r i)) ends,
  )

  -- Each statement of SaveCanvas leaves consistent tables consistent, where the workflow exists, the
  -- edges of the canvas join its steps, and the ids of its steps belong to no other workflow's.
  pub save_canvas-Through :
      (c : Canvas) (t : Tables)
      → IsConsistent t
      → Exists wf t
      → EdgesJoin c
      → OwnIds wf c t
      → Through IsConsistent (canvas_deletions wf ++ insertions wf c) t
  unfolding apply
  save_canvas-Through c t h there join own =
      let t1 = apply (delete_edges wf) t in
      let h1 = delete_edges-IsConsistent wf t h in
      let t2 = apply (delete_step_executions wf) t1 in
      let h2 = delete_step_executions-IsConsistent wf t1 h1 in
      let t3 = apply (delete_steps wf) t2 in
      let h3 =
        delete_steps-IsConsistent wf t2 h2 (None-keep (λ x. x.workflow_id) wf t.edges)
          (NoStepExecutions-keep wf t1) in
      let t4 = apply (delete_notes wf) t3 in
      let h4 = delete_notes-IsConsistent wf t3 h3 in
      (
        h,
        (
          h1,
          (
            h2,
            (
              h3,
              insert_steps-Through c c.steps t4 h4 there
                  (λ s i x j e. unused x s i e (h4.stepped x j)) (λ s i. inl i) join,
            ),
          ),
        ),
      )
    where
      unused :
          (x : StepExecutionRow) (s : CanvasStep)
          → In s c.steps
          → s.id ≡ x.step_id
          → (r : StepRow) × In r (keep (λ r. not (r.workflow_id == wf)) t.steps) × Stepped x r
          → ⊥
      unused x s i e (r, k, m) =
          let (old, other) = In-of-keep (λ y. not (y.workflow_id == wf)) r t.steps k in
          other_than r.workflow_id wf other (own s i r old (m ∙ sym e))
