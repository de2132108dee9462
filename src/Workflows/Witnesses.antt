-- ===== src/Workflows/Witnesses.antt =====
-- The theorems on workflows at the database in memory.
use react_go_workflow.Prelude.{
  ◌+◌, ◌≡◌, ◌≢◌, refl, sym, ap, ◌∙◌, ◌<◌, none, List, All, All-at, In, inl, inr, [], ◌∷◌, ◌++◌,
  arith,
}
use react_go_workflow.Workflows.Tables.{Full, StepRow, CanvasStep}
use react_go_workflow.Workflows.Repository.{
  save_canvas, delete, canvas_deletions, insertions, write_step, write_edge, write_note,
}
use react_go_workflow.Workflows.Repository.Transactions.{CommitReported, Atomic}
use react_go_workflow.Workflows.Repository.Saving.{Saved, save_canvas-Saved}
use react_go_workflow.Workflows.Repository.Deleting.{Removed, delete-Removed, delete-NoConstraint}
use react_go_workflow.Workflows.Repository.Keys.{Through, NoConstraint}
use react_go_workflow.Workflows.Repository.Integrity.{
  IsConsistent, Refers, Joined, Notified, Source, Target, Stepped, Executed,
}
use react_go_workflow.Workflows.Repository.Joining.{EdgesJoin, OwnIds, save_canvas-Through}
use react_go_workflow.Workflows.Service.{copy_canvas}
use react_go_workflow.Workflows.Service.Copying.{IsCopy, copy_canvas-IsCopy}
use react_go_workflow.Workflows.Samples.{
  memory, memory_laws, memory_keys, sample, canvas, row, canvas_step, canvas_edge, canvas_note,
}

save_canvas-Saved_example :
    Atomic
      (CommitReported memory memory_laws)
      (Saved 2 (canvas 71 72))
      (save_canvas memory 2 (canvas 71 72) sample).reply
      (memory_laws.tables sample)
      (memory_laws.tables (save_canvas memory 2 (canvas 71 72) sample).state)
save_canvas-Saved_example = save_canvas-Saved memory memory_laws 2 (canvas 71 72) sample

delete-Removed_example :
    Atomic
      (CommitReported memory memory_laws)
      (Removed 1)
      (delete memory 1 sample).reply
      (memory_laws.tables sample)
      (memory_laws.tables (delete memory 1 sample).state)
delete-Removed_example = delete-Removed memory memory_laws 1 sample

refers :
    {A B : Type 0} (xs : List A) (ys : List B) (K : A → B → Type 0)
    → All (λ x. (y : B) × In y ys × K x y) xs
    → Refers xs ys K
refers xs ys K h = All-at (λ x. (y : _) × In y ys × K x y) xs h

sample-Joined : Joined sample.step_executions sample.steps sample.workflow_executions
unfolding write_step
sample-Joined x (inl e) s (inl f) k y (inl g) m =
    ap (λ z. z.workflow_id) (sym f) ∙ ap (λ z. z.workflow_id) g
sample-Joined x (inl e) s (inr (inl f)) k y (inl g) m =
    ap (λ z. z.workflow_id) (sym f) ∙ ap (λ z. z.workflow_id) g
sample-Joined x (inl e) s (inr (inr (inl f))) k y (inl g) m =
    absurd (omega (arith, ap (λ z. z.id) f, ap (λ z. z.step_id) e, k))
sample-Joined x (inl e) s (inl f) k y (inr g) m = elim g [ ]
sample-Joined x (inl e) s (inr (inl f)) k y (inr g) m = elim g [ ]
sample-Joined x (inl e) s (inr (inr (inl f))) k y (inr g) m = elim g [ ]
sample-Joined x (inl e) s (inr (inr (inr f))) k y g m = elim f [ ]
sample-Joined x (inr e) s f k y g m = elim e [ ]

-- The tables of the sample are consistent.
sample-IsConsistent : IsConsistent sample
unfolding write_step write_edge write_note
sample-IsConsistent = record {
  steps =
      refers sample.steps sample.workflows (λ x w. w.id ≡ x.workflow_id)
        ((row 1, inl refl, refl), ((row 1, inl refl, refl), ((row 2, inr (inl refl), refl), tt)));
  edges =
      refers sample.edges sample.workflows (λ x w. w.id ≡ x.workflow_id)
        ((row 1, inl refl, refl), tt);
  notes =
      refers sample.canvas_notes sample.workflows (λ x w. w.id ≡ x.workflow_id)
        ((row 2, inr (inl refl), refl), tt);
  versions = λ x i. absurd i;
  settings = λ x i. absurd i;
  executions =
      refers sample.workflow_executions sample.workflows (λ x w. w.id ≡ x.workflow_id)
        ((row 1, inl refl, refl), tt);
  notifications =
      refers sample.notifications sample.workflows (λ x w. w.id ≡ x.workflow_id)
        ((row 1, inl refl, refl), tt);
  notified = refers sample.notifications sample.workflow_executions Notified (
    (record { id = 51; workflow_id = 1; workflow_version_id = none }, inl refl, (refl, refl)),
    tt,
  );
  sources =
      refers sample.edges sample.steps Source
        ((write_step 1 (canvas_step 11), inl refl, (refl, refl)), tt);
  targets =
      refers sample.edges sample.steps Target
        ((write_step 1 (canvas_step 12), inr (inl refl), (refl, refl)), tt);
  stepped =
      refers sample.step_executions sample.steps Stepped
        ((write_step 1 (canvas_step 11), inl refl, refl), tt);
  executed =
      refers sample.step_executions sample.workflow_executions Executed
        ((record { id = 51; workflow_id = 1; workflow_version_id = none }, inl refl, refl), tt);
  joined = sample-Joined;
}

delete-NoConstraint_example : NoConstraint (delete memory 1 sample).reply
delete-NoConstraint_example =
    delete-NoConstraint memory memory_laws memory_keys 1 sample
      (unfold memory_laws in sample-IsConsistent)

canvas-EdgesJoin : EdgesJoin (canvas 71 72)
canvas-EdgesJoin e (inl is) = (
  (canvas_step 71, inl refl, ap (λ z. z.source_step_id) is),
  (canvas_step 72, inr (inl refl), ap (λ z. z.target_step_id) is),
)
canvas-EdgesJoin e (inr is) = elim is [ ]

small_ids : All (λ (r : StepRow). r.id < 30) sample.steps
unfolding write_step
small_ids = omega arith

large_ids : All (λ (s : CanvasStep). 70 < s.id) (canvas 71 72).steps
large_ids = omega arith

canvas-OwnIds : OwnIds 2 (canvas 71 72) sample
canvas-OwnIds s i r j e = absurd (
    omega (
      arith,
      All-at (λ (r : StepRow). r.id < 30) sample.steps small_ids r j,
      All-at (λ (s : CanvasStep). 70 < s.id) (canvas 71 72).steps large_ids s i,
      e,
    ))

save_canvas-Through_example :
    Through IsConsistent (canvas_deletions 2 ++ insertions 2 (canvas 71 72)) sample
save_canvas-Through_example =
    save_canvas-Through 2 (canvas 71 72) sample sample-IsConsistent (row 2, inr (inl refl), refl)
      canvas-EdgesJoin canvas-OwnIds

abbrev full : Full
full = record {
  workflow = row 1;
  steps = canvas_step 11 ∷ canvas_step 12 ∷ [];
  edges = canvas_edge 31 11 12 ∷ [];
  notes = canvas_note 41 ∷ [];
}

other_id : (r : CanvasStep) → In r (canvas_step 12 ∷ []) → r.id ≢ 11
other_id r (inl is) e = omega (arith, ap (λ z. z.id) is, e)
other_id r (inr i) e = elim i [ ]

copy_canvas-IsCopy_example : IsCopy (λ n. n + 100) 0 full (copy_canvas (λ n. n + 100) 0 full)
copy_canvas-IsCopy_example =
    copy_canvas-IsCopy (λ n. n + 100) (λ i j e. omega (arith, e)) 0 full
      (other_id, ((λ r i. absurd i), tt))
