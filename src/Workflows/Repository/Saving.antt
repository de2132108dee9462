-- ===== src/Workflows/Repository/Saving.antt =====
-- SaveCanvas as a write to a map from workflows to canvases.
use mathlib.Core.List.{append-nil, append_assoc}
use react_go_workflow.Prelude.{
  ◌≡◌, refl, ◌∙◌, ap, true, false, not, inl, inr, List, [], ◌∷◌, ◌++◌, map, keep, ◌==◌,
  if◌then◌else◌, Bool-cases, arith, keep-append, keep-keep, keep-keep_none,
}
use react_go_workflow.Engine.Types.{Uuid}
use react_go_workflow.Workflows.Tables.{
  Tables, CanvasStep, CanvasEdge, CanvasNote, read_step, read_edge, read_note, read_text-set_text,
}
use react_go_workflow.Workflows.Database.{
  Statement, insert_step, insert_edge, insert_note, is_step_of, apply, apply_all, apply_all-append,
  Database, DatabaseLaws,
}
use react_go_workflow.Workflows.Repository.{
  Canvas, write_step, write_edge, write_note, canvas_deletions, insertions, save_canvas,
}
use react_go_workflow.Workflows.Repository.Transactions.{
  CommitReported, Atomic, Atomic-map, in_transaction-Atomic,
}

-- The canvas that the tables hold of a workflow.
abbrev pub canvas_of : Uuid → Tables → Canvas
canvas_of j t = record {
  steps = map read_step (keep (λ r. r.workflow_id == j) t.steps);
  edges = map read_edge (keep (λ r. r.workflow_id == j) t.edges);
  notes = map read_note (keep (λ r. r.workflow_id == j) t.canvas_notes);
}

-- The tables after a canvas was written: the workflow has it, and all else is as it was, except the
-- executions of the steps that went.
pub record Saved (wf : Uuid) (c : Canvas) (t u : Tables) : Type 0 where
  pub canvases : (j : Uuid) → canvas_of j u ≡ (if wf == j then c else canvas_of j t)
  pub workflows : u.workflows ≡ t.workflows
  pub workflow_versions : u.workflow_versions ≡ t.workflow_versions
  pub workflow_executions : u.workflow_executions ≡ t.workflow_executions
  pub step_executions :
      u.step_executions ≡ keep (λ x. not (is_step_of wf t.steps x.step_id)) t.step_executions
  pub notification_settings : u.notification_settings ≡ t.notification_settings
  pub notifications : u.notifications ≡ t.notifications

-- A row is read as what was written.
read_step-write_step : (wf : Uuid) (s : CanvasStep) → read_step (write_step wf s) ≡ s
unfolding read_step write_step
read_step-write_step wf s = rw (read_text-set_text s.description) refl

read_edge-write_edge : (wf : Uuid) (e : CanvasEdge) → read_edge (write_edge wf e) ≡ e
unfolding read_edge write_edge
read_edge-write_edge wf e =
    rw (read_text-set_text e.source_output, read_text-set_text e.target_input) refl

read_note-write_note : (wf : Uuid) (n : CanvasNote) → read_note (write_note wf n) ≡ n
unfolding read_note write_note
read_note-write_note wf n = rw (read_text-set_text n.content) refl

-- One table: the old rows of the workflow go, and the new ones are added.
module _ {Row Entity : Type 0} (owner : Row → Uuid) (read : Row → Entity)
    (write : Uuid → Entity → Row) (owned : (wf : Uuid) (e : Entity) → owner (write wf e) ≡ wf)
    (returns : (wf : Uuid) (e : Entity) → read (write wf e) ≡ e) where
  abbrev replaced : Uuid → List Entity → List Row → List Row
  replaced wf l rows = keep (λ r. not (owner r == wf)) rows ++ map (write wf) l

  keep_written_same :
      (wf j : Uuid)
      → (wf == j) ≡ true
      → (l : List Entity) → map read (keep (λ r. owner r == j) (map (write wf) l)) ≡ l
  keep_written_same wf j e [] = refl
  keep_written_same wf j e (x ∷ l) =
      rw (owned wf x, e, returns wf x, keep_written_same wf j e l) refl

  keep_written_other :
      (wf j : Uuid)
      → (wf == j) ≡ false
      → (l : List Entity) → keep (λ r. owner r == j) (map (write wf) l) ≡ []
  keep_written_other wf j e [] = refl
  keep_written_other wf j e (x ∷ l) = rw (owned wf x, e) (keep_written_other wf j e l)

  pub read-replaced :
      (wf j : Uuid) (l : List Entity) (rows : List Row)
      → map read (keep (λ r. owner r == j) (replaced wf l rows))
        ≡ (if wf == j then l else map read (keep (λ r. owner r == j) rows))
  read-replaced wf j l rows = elim (Bool-cases (wf == j)) [
    | inl same ↦
        rw
          (
            keep-append (λ r. owner r == j) (keep (λ r. not (owner r == wf)) rows)
                (map (write wf) l),
            keep-keep_none (λ r. not (owner r == wf)) (λ r. owner r == j) (λ r h. ground arith)
                rows,
            same,
          )
          (keep_written_same wf j same l)
    | inr other ↦
        rw
          (
            keep-append (λ r. owner r == j) (keep (λ r. not (owner r == wf)) rows)
                (map (write wf) l),
            keep-keep (λ r. not (owner r == wf)) (λ r. owner r == j) (λ r h. ground arith) rows,
            keep_written_other wf j other l,
            append-nil (keep (λ r. owner r == j) rows),
            other,
          )
          refl
  ]

owned_step : (wf : Uuid) (s : CanvasStep) → (write_step wf s).workflow_id ≡ wf
unfolding write_step
owned_step wf s = refl

owned_edge : (wf : Uuid) (e : CanvasEdge) → (write_edge wf e).workflow_id ≡ wf
unfolding write_edge
owned_edge wf e = refl

owned_note : (wf : Uuid) (n : CanvasNote) → (write_note wf n).workflow_id ≡ wf
unfolding write_note
owned_note wf n = refl

-- The three parts of a canvas, whichever side the test takes.
canvas_path :
    (wf j : Uuid) (c d : Canvas) {s : List CanvasStep} {e : List CanvasEdge} {n : List CanvasNote}
    → s ≡ (if wf == j then c.steps else d.steps)
    → e ≡ (if wf == j then c.edges else d.edges)
    → n ≡ (if wf == j then c.notes else d.notes)
    → record { steps = s; edges = e; notes = n } ≡ (if wf == j then c else d)
canvas_path wf j c d p q r = ground (arith, p, q, r)

module _ (wf : Uuid) where
  insert_steps :
      (l : List CanvasStep) (t : Tables)
      → apply_all (map (λ s. insert_step (write_step wf s)) l) t
        ≡ record t { steps = t.steps ++ map (write_step wf) l }
  unfolding apply_all apply
  insert_steps [] t = rw (append-nil t.steps) refl
  insert_steps (x ∷ l) t =
      insert_steps l (apply (insert_step (write_step wf x)) t)
      ∙ rw (append_assoc t.steps (write_step wf x ∷ []) (map (write_step wf) l)) refl

  insert_edges :
      (l : List CanvasEdge) (t : Tables)
      → apply_all (map (λ s. insert_edge (write_edge wf s)) l) t
        ≡ record t { edges = t.edges ++ map (write_edge wf) l }
  unfolding apply_all apply
  insert_edges [] t = rw (append-nil t.edges) refl
  insert_edges (x ∷ l) t =
      insert_edges l (apply (insert_edge (write_edge wf x)) t)
      ∙ rw (append_assoc t.edges (write_edge wf x ∷ []) (map (write_edge wf) l)) refl

  insert_notes :
      (l : List CanvasNote) (t : Tables)
      → apply_all (map (λ s. insert_note (write_note wf s)) l) t
        ≡ record t { canvas_notes = t.canvas_notes ++ map (write_note wf) l }
  unfolding apply_all apply
  insert_notes [] t = rw (append-nil t.canvas_notes) refl
  insert_notes (x ∷ l) t =
      insert_notes l (apply (insert_note (write_note wf x)) t)
      ∙ rw (append_assoc t.canvas_notes (write_note wf x ∷ []) (map (write_note wf) l)) refl

  abbrev edges_and_notes : Canvas → List Statement
  edges_and_notes c =
      map (λ e. insert_edge (write_edge wf e)) c.edges
      ++ map (λ n. insert_note (write_note wf n)) c.notes

  insert_all :
      (c : Canvas) (t : Tables)
      → apply_all (insertions wf c) t ≡ record t {
        steps = t.steps ++ map (write_step wf) c.steps;
        edges = t.edges ++ map (write_edge wf) c.edges;
        canvas_notes = t.canvas_notes ++ map (write_note wf) c.notes;
      }
  insert_all c t =
      apply_all-append (map (λ s. insert_step (write_step wf s)) c.steps) (edges_and_notes c) t
      ∙ ap (apply_all (edges_and_notes c)) (insert_steps c.steps t)
      ∙ apply_all-append (map (λ e. insert_edge (write_edge wf e)) c.edges)
          (map (λ n. insert_note (write_note wf n)) c.notes)
          (record t { steps = t.steps ++ map (write_step wf) c.steps })
      ∙ ap (apply_all (map (λ n. insert_note (write_note wf n)) c.notes))
          (insert_edges c.edges (record t { steps = t.steps ++ map (write_step wf) c.steps }))
      ∙ insert_notes c.notes (record t {
        steps = t.steps ++ map (write_step wf) c.steps;
        edges = t.edges ++ map (write_edge wf) c.edges;
      })

  -- All statements of SaveCanvas.
  saved_tables :
      (c : Canvas) (t : Tables)
      → apply_all (canvas_deletions wf ++ insertions wf c) t ≡ record t {
        edges = keep (λ r. not (r.workflow_id == wf)) t.edges ++ map (write_edge wf) c.edges;
        step_executions = keep (λ x. not (is_step_of wf t.steps x.step_id)) t.step_executions;
        steps = keep (λ r. not (r.workflow_id == wf)) t.steps ++ map (write_step wf) c.steps;
        canvas_notes =
            keep (λ r. not (r.workflow_id == wf)) t.canvas_notes ++ map (write_note wf) c.notes;
      }
  unfolding apply_all apply
  saved_tables c t =
      apply_all-append (canvas_deletions wf) (insertions wf c) t
      ∙ insert_all c (apply_all (canvas_deletions wf) t)

  made-Saved :
      (c : Canvas) (t u : Tables)
      → u ≡ apply_all (canvas_deletions wf ++ insertions wf c) t
      → Saved wf c t u
  made-Saved c t u is = rw (is ∙ saved_tables c t) (record {
    canvases = λ j.
        canvas_path wf j c (canvas_of j t)
          (read-replaced (λ r. r.workflow_id) read_step write_step owned_step read_step-write_step
            wf j c.steps t.steps)
          (read-replaced (λ r. r.workflow_id) read_edge write_edge owned_edge read_edge-write_edge
            wf j c.edges t.edges)
          (read-replaced (λ r. r.workflow_id) read_note write_note owned_note read_note-write_note
            wf j c.notes t.canvas_notes);
    workflows = refl;
    workflow_versions = refl;
    workflow_executions = refl;
    step_executions = refl;
    notification_settings = refl;
    notifications = refl;
  })

-- The repository implements a map from workflows to canvases: when SaveCanvas returns no error, the
-- workflow has the given canvas, every other workflow the one it had, and of the other tables only the
-- executions of the workflow's old steps have gone. When it returns an error nothing has changed, or
-- all of this was done and it is Commit that reported the error.
pub save_canvas-Saved :
    (db : Database) (laws : DatabaseLaws db) (wf : Uuid) (c : Canvas) (s : db.State)
    → Atomic
        (CommitReported db laws)
        (Saved wf c)
        (save_canvas db wf c s).reply
        (laws.tables s)
        (laws.tables (save_canvas db wf c s).state)
unfolding save_canvas
save_canvas-Saved db laws wf c s =
    Atomic-map (CommitReported db laws)
      (λ t u. u ≡ apply_all (canvas_deletions wf ++ insertions wf c) t) (Saved wf c)
      (save_canvas db wf c s).reply (laws.tables s) (laws.tables (save_canvas db wf c s).state)
      (made-Saved wf c (laws.tables s) (laws.tables (save_canvas db wf c s).state))
      (in_transaction-Atomic db laws (canvas_deletions wf ++ insertions wf c) s)
