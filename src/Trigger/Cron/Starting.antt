-- ===== src/Trigger/Cron/Starting.antt =====
-- Every entry that Start makes is one that a row asks for.
use react_go_workflow.Prelude.{
  ◌≡◌, refl, sym, ap, ◌∙◌, ◌⊎◌, inl, inr, none, some, List, [], ◌∷◌, map, In, Text, ◌==◌, ==_iff,
  Bool-cases, arith, subst,
}
use react_go_workflow.Engine.Types.{Uuid}
use react_go_workflow.Engine.Trace.{Distinct}
use react_go_workflow.Trigger.Cron.{
  CronLibrary, CronLaws, CronEntry, CronWorkflow, cron_expression, CronScheduler, register, start,
}
use react_go_workflow.Trigger.Cron.Laws.{IsTracked, register-Registered}

-- Some row of the workflow has cron enabled with the expression.
abbrev pub AsksIn : List CronWorkflow → Uuid → Text → Type 0
AsksIn ws v expr =
    (w : CronWorkflow) × In w ws × (w.id ≡ v) × (cron_expression w.trigger_config ≡ some expr)

module _ (lib : CronLibrary) (laws : CronLaws lib) where
  pub start-asked :
      (ws : List CronWorkflow) (s : CronScheduler lib)
      → Distinct (map (λ w. w.id) ws)
      → ((v : Uuid) → In v (map (λ w. w.id) ws) → s.entries v ≡ none)
      → IsTracked lib s
      → (v : Uuid) (e : CronEntry) → (start lib ws s).entries v ≡ some e
      → (s.entries v ≡ some e) ⊎ AsksIn ws v e.expr
  unfolding start
  start-asked [] s d free h v e there = inl there
  start-asked (w ∷ ws) s d free h v e there =
      let r =
        register-Registered lib laws w.id w.name w.trigger_config s h (free w.id (inl refl)) in
      elim (start-asked ws (register lib w.id w.name w.trigger_config s) d.1
        (λ u i.
          r.others u (λ same. d.0 (subst (λ x. In x (map (λ w. w.id) ws)) (sym same) i))
          ∙ free u (inr i))
        r.tracked v e there) [
          | inr (x, i, id, is) ↦ inr (x, inr i, id, is)
          | inl here ↦ elim (Bool-cases (w.id == v)) [
            | inl same ↦
                let own = (==_iff w.id v).0 same in
                inr (
                  w,
                  inl refl,
                  own,
                  (r.asked e
                      (ap (register lib w.id w.name w.trigger_config s).entries own ∙ here)).0,
                )
            | inr other ↦ inl (sym (r.others v (λ e. ground (arith, e, other))) ∙ here)
          ]
        ]
