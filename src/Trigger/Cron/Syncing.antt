-- ===== src/Trigger/Cron/Syncing.antt =====
-- Sync leaves a workflow with the one job that its row asks for, and Start with the jobs of all rows.
use react_go_workflow.Prelude.{
  ℕ, ◌≡◌, ◌≢◌, refl, sym, ap, ◌∙◌, subst, inl, inr, true, false, none, some, List, [], ◌∷◌, map, In,
  Text, codes, text_eq, text_eq_iff, Bool-cases, Option-cases,
}
use react_go_workflow.Engine.Types.{Uuid}
use react_go_workflow.Engine.Trace.{Distinct}
use react_go_workflow.Trigger.Cron.{
  CronLibrary, CronLaws, CronEntry, CronWorkflow, cron_expression, CronScheduler,
  new_cron_scheduler, register, remove, sync, start,
}
use react_go_workflow.Trigger.Cron.Laws.{
  IsTracked, new_cron_scheduler-IsTracked, remove-IsTracked, update_other, Registered,
  register-Registered,
}

abbrev pub archived : Text
archived = codes "archived"

module _ (lib : CronLibrary) where
  -- What Sync leaves of a workflow's jobs.
  pub record Synced (w : CronWorkflow) (s t : CronScheduler lib) : Type 0 where
    -- All jobs are those of the entries, and so there is one at most for each workflow.
    pub tracked : IsTracked lib t
    -- A job of the workflow is one that its row asks for.
    pub asked :
        (j : ℕ)
        → lib.HasJob t.cron j w.id
        → (w.status ≢ archived)
          × (e : CronEntry) × (t.entries w.id ≡ some e)
          × (e.entry_id ≡ j)
          × (cron_expression w.trigger_config ≡ some e.expr)
    -- A row that asks for a job with an expression that parses has one.
    pub granted :
        (expr : Text)
        → w.status ≢ archived
        → cron_expression w.trigger_config ≡ some expr
        → lib.parses expr ≡ true
        → (j : ℕ) × lib.HasJob t.cron j w.id
    pub others : (v : Uuid) → (w.id ≡ v → ⊥) → t.entries v ≡ s.entries v

  -- What Start leaves.
  pub record Started (ws : List CronWorkflow) (s t : CronScheduler lib) : Type 0 where
    pub tracked : IsTracked lib t
    -- Each row that asks for a job with an expression that parses has one.
    pub granted :
        (w : CronWorkflow) (expr : Text)
        → In w ws
        → cron_expression w.trigger_config ≡ some expr
        → lib.parses expr ≡ true
        → (e : CronEntry) × (t.entries w.id ≡ some e) × lib.HasJob t.cron e.entry_id w.id
    pub others : (v : Uuid) → (In v (map (λ w. w.id) ws) → ⊥) → t.entries v ≡ s.entries v

  pub remove-others :
      (wf : Uuid) (s : CronScheduler lib) (v : Uuid)
      → (wf ≡ v → ⊥)
      → (remove lib wf s).entries v ≡ s.entries v
  unfolding remove
  remove-others wf s v n = elim (Option-cases (s.entries wf)) [
    | inl absent ↦ rw (absent, remove) refl
    | inr (e, there) ↦ rw (there, remove) (update_other s.entries wf v none n)
  ]

module _ (lib : CronLibrary) (laws : CronLaws lib) where
  pub sync-Synced :
      (w : CronWorkflow) (s : CronScheduler lib) → IsTracked lib s → Synced lib w s (sync lib w s)
  unfolding sync
  sync-Synced w s h = elim (Bool-cases (text_eq w.status archived)) [
    | inl off ↦
        rw (off, sync)
          (record {
            tracked = cleared.0;
            asked = λ j job.
                let (e, there, id) = cleared.0.entry_of j w.id job in
                absurd (none_some (sym cleared.1 ∙ there));
            granted = λ expr live is parses. absurd (live ((text_eq_iff w.status archived).0 off));
            others = remove-others lib w.id s;
          })
    | inr on ↦
        rw (on, sync)
          (record {
            tracked = registered.tracked;
            asked = λ j job.
                let (e, there, id) = registered.tracked.entry_of j w.id job in
                (
                  (λ same. true_false (sym ((text_eq_iff w.status archived).1 same) ∙ on)),
                  e,
                  there,
                  id,
                  (registered.asked e there).0,
                );
            granted = λ expr live is parses.
                let (e, there) = registered.granted expr is parses in
                (e.entry_id, registered.tracked.job_of w.id e there);
            others = λ v n. registered.others v n ∙ remove-others lib w.id s v n;
          })
  ]
    where
      cleared : IsTracked lib (remove lib w.id s) × ((remove lib w.id s).entries w.id ≡ none)
      cleared = remove-IsTracked lib laws w.id s h

      registered :
          Registered lib w.id w.name w.trigger_config
            (remove lib w.id s)
            (register lib w.id w.name w.trigger_config (remove lib w.id s))
      registered =
          register-Registered lib laws w.id w.name w.trigger_config (remove lib w.id s) cleared.0
            cleared.1

      none_some : {e : CronEntry} → none ≡ some e → ⊥
      none_some q = absurd cc

      true_false : true ≡ false → ⊥
      true_false q = absurd cc

  start-Started :
      (ws : List CronWorkflow) (s : CronScheduler lib)
      → Distinct (map (λ w. w.id) ws)
      → ((v : Uuid) → In v (map (λ w. w.id) ws) → s.entries v ≡ none)
      → IsTracked lib s
      → Started lib ws s (start lib ws s)
  unfolding start
  start-Started [] s d free h = record {
    tracked = record { job_of = h.job_of; entry_of = h.entry_of; one_id = h.one_id };
    granted = λ w expr i. absurd i;
    others = λ v n. refl;
  }
  start-Started (w ∷ ws) s d free h =
      let r =
        register-Registered lib laws w.id w.name w.trigger_config s h (free w.id (inl refl)) in
      let later =
        start-Started ws (register lib w.id w.name w.trigger_config s) d.1
          (λ v i.
            r.others v (λ same. d.0 (subst (λ x. In x (map (λ w. w.id) ws)) (sym same) i))
            ∙ free v (inr i))
          r.tracked in
      record {
        tracked = later.tracked;
        granted = λ w' expr i is parses. elim i [
          | inl same ↦
              let (e, there) =
                r.granted expr (ap (λ x. cron_expression x.trigger_config) same ∙ is) parses in
              let kept = later.others w.id d.0 ∙ there in
              (
                e,
                subst
                    (λ x.
                      (start lib ws (register lib w.id w.name w.trigger_config s)).entries x.id
                      ≡ some e)
                    same kept,
                subst
                    (λ x.
                      lib.HasJob (start lib ws (register lib w.id w.name w.trigger_config s)).cron
                        e.entry_id x.id)
                    same (later.tracked.job_of w.id e kept),
              )
          | inr j ↦ later.granted w' expr j is parses
        ];
        others = λ v n. later.others v (λ i. n (inr i)) ∙ r.others v (λ same. n (inl same));
      }

  -- Start of a new scheduler over rows with different ids schedules every row whose config has cron
  -- enabled with an expression that parses, whatever its status is, and no row twice.
  pub start-new :
      (ws : List CronWorkflow)
      → Distinct (map (λ w. w.id) ws)
      → Started lib ws (new_cron_scheduler lib) (start lib ws (new_cron_scheduler lib))
  unfolding new_cron_scheduler
  start-new ws d =
      start-Started ws (new_cron_scheduler lib) d (λ v i. refl)
        (new_cron_scheduler-IsTracked lib laws)
