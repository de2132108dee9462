-- ===== src/Workflows/Handler/Scheduling.antt =====
-- The jobs of the cron scheduler beside the rows of workflows, over all handlers.
use mathlib.Core.Option.{some_inj}
use react_go_workflow.Prelude.{
  ◌≡◌, ◌≢◌, refl, sym, ap, ◌∙◌, subst, inl, inr, some, List, map, In, Text, ◌==◌, ==_iff,
  if◌then◌else◌, arith, Bool-cases, In-map, In-of-map,
}
use react_go_workflow.Engine.Types.{Uuid}
use react_go_workflow.Engine.Trace.{Distinct}
use react_go_workflow.Trigger.Cron.{
  CronLibrary, CronLaws, CronEntry, cron_expression, CronScheduler, new_cron_scheduler, sync,
  remove, start,
}
use react_go_workflow.Trigger.Cron.Laws.{
  IsTracked, clash, new_cron_scheduler-IsTracked, remove-IsTracked,
}
use react_go_workflow.Trigger.Cron.Syncing.{sync-Synced, remove-others, start-new}
use react_go_workflow.Trigger.Cron.Starting.{start-asked}
use react_go_workflow.Workflows.Tables.{WorkflowRow}
use react_go_workflow.Workflows.Repository.Deleting.{OthersStay}
use react_go_workflow.Workflows.Requests.{cron_row}

-- Some row of the workflow has cron enabled with the expression.
abbrev pub Asks : List WorkflowRow → Uuid → Text → Type 0
Asks rows v expr =
    (w : WorkflowRow) × In w rows × (w.id ≡ v) × (cron_expression w.trigger_config ≡ some expr)

module _ (lib : CronLibrary) where
  -- Every job is that of an entry, and every entry is one that a row asks for.
  pub record Backed (rows : List WorkflowRow) (c : CronScheduler lib) : Type 0 where
    pub tracked : IsTracked lib c
    pub asked : (v : Uuid) (e : CronEntry) → c.entries v ≡ some e → Asks rows v e.expr

  pub Backed-more :
      (rows more : List WorkflowRow) (c : CronScheduler lib)
      → ((w : WorkflowRow) → In w rows → In w more)
      → Backed rows c
      → Backed more c
  Backed-more rows more c f h = record {
    tracked = h.tracked;
    asked = λ v e there. let (w, i, id, is) = h.asked v e there in (w, f w i, id, is);
  }

module _ (lib : CronLibrary) (laws : CronLaws lib) where
  pub new-Backed : (rows : List WorkflowRow) → Backed lib rows (new_cron_scheduler lib)
  unfolding new_cron_scheduler
  new-Backed rows = record {
    tracked = new_cron_scheduler-IsTracked lib laws;
    asked = λ v e there. absurd cc;
  }

  -- A restart.
  pub start-Backed :
      (rows : List WorkflowRow)
      → Distinct (map (λ w. w.id) (map cron_row rows))
      → Backed lib rows (start lib (map cron_row rows) (new_cron_scheduler lib))
  unfolding new_cron_scheduler
  start-Backed rows d = record {
    tracked = (start-new lib laws (map cron_row rows) d).tracked;
    asked = λ v e there.
        elim (start-asked lib laws (map cron_row rows) (new_cron_scheduler lib) d (λ v i. refl)
          (new_cron_scheduler-IsTracked lib laws) v e there) [
            | inl old ↦ absurd cc
            | inr (x, i, id, is) ↦
                let (w, j, same) = In-of-map cron_row x rows i in
                (
                  w,
                  j,
                  ap (λ y. y.id) same ∙ id,
                  ap (λ y. cron_expression y.trigger_config) same ∙ is,
                )
          ];
  }

  -- A deletion.
  pub remove-Backed :
      (wf : Uuid) (rows left : List WorkflowRow) (c : CronScheduler lib)
      → OthersStay (λ (w : WorkflowRow). w.id) wf rows left
      → Backed lib rows c
      → Backed lib left (remove lib wf c)
  remove-Backed wf rows left c stay h =
      let (tracked, gone) = remove-IsTracked lib laws wf c h.tracked in
      record {
        tracked = tracked;
        asked = λ v e there. elim (Bool-cases (wf == v)) [
          | inl same ↦
              absurd (clash gone (ap (remove lib wf c).entries ((==_iff wf v).0 same) ∙ there))
          | inr other ↦
              let n : wf ≢ v = λ e. ground (arith, e, other) in
              let (w, i, id, is) = h.asked v e (sym (remove-others lib wf c v n) ∙ there) in
              (w, (stay w).1 (i, λ e. n (sym e ∙ id)), id, is)
        ];
      }

  -- An update.
  pub sync-Backed :
      (wf : Uuid) (change : WorkflowRow → WorkflowRow) (rows : List WorkflowRow) (old : WorkflowRow)
      (c : CronScheduler lib)
      → In old rows
      → old.id ≡ wf
      → ((w : WorkflowRow) → (change w).id ≡ w.id)
      → Backed lib rows c
      → Backed lib
          (map (λ w. if w.id == wf then change w else w) rows)
          (sync lib (record (cron_row (change old)) { id = wf }) c)
  sync-Backed wf change rows old c there is keeps h =
      let row = record (cron_row (change old)) { id = wf } in
      let put : WorkflowRow → WorkflowRow = λ w. if w.id == wf then change w else w in
      let s = sync-Synced lib laws row c h.tracked in
      record {
        tracked = s.tracked;
        asked = λ v e entry. elim (Bool-cases (wf == v)) [
          | inl same ↦
              let own : wf ≡ v = (==_iff wf v).0 same in
              let mine : (sync lib row c).entries wf ≡ some e =
                ap (sync lib row c).entries own ∙ entry in
              let (live, x, at, id, asks) = s.asked e.entry_id (s.tracked.job_of wf e mine) in
              (
                change old,
                subst (λ w. In w (map put rows)) (put_own old is) (In-map put old rows there),
                keeps old ∙ is ∙ own,
                asks ∙ ap (λ (y : CronEntry). some y.expr) (some_inj.0 (sym at ∙ mine)),
              )
          | inr other ↦
              let n : wf ≢ v = λ e. ground (arith, e, other) in
              let (w, i, id, asks) = h.asked v e (sym (s.others v n) ∙ entry) in
              (
                w,
                subst (λ x. In x (map put rows)) (put_other w (λ e. n (sym e ∙ id)))
                    (In-map put w rows i),
                id,
                asks,
              )
        ];
      }
    where
      put_own : (w : WorkflowRow) → w.id ≡ wf → (if w.id == wf then change w else w) ≡ change w
      put_own w e = ground (arith, e)

      put_other : (w : WorkflowRow) → w.id ≢ wf → (if w.id == wf then change w else w) ≡ w
      put_other w n = ground (arith, n)
