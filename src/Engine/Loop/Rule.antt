-- ===== src/Engine/Loop/Rule.antt =====
-- A proof rule for the loop over the waves.
use mathlib.Core.Option.{some_inj}
use react_go_workflow.Prelude.{
  ℕ, zero, suc, ◌≡◌, refl, inl, inr, ◌⊎◌, Option, none, some, List, [], ◌∷◌, List-cases, then_some,
  subst,
}
use react_go_workflow.Engine.Errors.{Error}
use react_go_workflow.Engine.Types.{Uuid, Step, Registry}
use react_go_workflow.Engine.Graph.{Platform, Graph}
use react_go_workflow.Engine.Skip.{Run}
use react_go_workflow.Engine.Clock.{CtxErr}
use react_go_workflow.Engine.Dag.{ready, run_wave}
use react_go_workflow.Engine.Loop.{Stop, waves, interruption}

module _ (p : Platform) (registry : Registry) (steps : List Step) (execs : List Uuid)
    (g : Graph) where
  -- What has to be shown of a property of the loop's variables.
  pub record WavesRule (P : Run → Type 0) (fuel : ℕ) : Type 0 where
    pub wave :
        (r t : Run) → P r → run_wave p registry steps execs g fuel (ready steps r) r ≡ some t → P t
    pub interrupted : (e : Error) (r : Run) → P r → P (record r { execution_err = some e })

  -- The loop stops when no step is ready, or because it was interrupted.
  pub record Stopped (P : Run → Type 0) (stop : Stop) : Type 0 where
    pub kept : P stop.run
    pub why : (ready steps stop.run ≡ []) ⊎ ((e : Error) × (stop.run.execution_err ≡ some e))

  module _ (err_at : ℕ → Option CtxErr) (P : Run → Type 0) (fuel : ℕ)
      (rule : WavesRule P fuel) where
    after :
        (n k : ℕ) (r : Run) (stop : Stop)
        → P r
        → ((stop' : Stop)
            → waves p registry steps execs g err_at n fuel (suc k) r ≡ some stop'
            → Stopped P stop')
        → (x : Option CtxErr)
        → (elim x [
          | none ↦ waves p registry steps execs g err_at n fuel (suc k) r
          | some _ ↦ some (record {
            run = record r { execution_err = some (interruption (err_at (suc k))) };
            reads = suc (suc k);
          })
        ])
          ≡ some stop
        → Stopped P stop
    after n k r stop h later none e = later stop e
    after n k r stop h later (some x) e =
        subst (Stopped P) (some_inj.0 e)
          (record { kept = rule.interrupted _ r h; why = inr (_, refl) })

    pub waves_end :
        (n k : ℕ) (r : Run) (stop : Stop)
        → P r
        → waves p registry steps execs g err_at n fuel k r ≡ some stop
        → Stopped P stop
    unfolding waves
    waves_end zero k r stop h e = absurd cc
    waves_end (suc n) k r stop h e = elim (List-cases (ready steps r)) [
      | inl idle ↦
          subst (Stopped P) (some_inj.0 (rw (idle, waves) at e))
            (record { kept = h; why = inl idle })
      | inr (id, ids, more) ↦
          let (t, went, rest) =
            then_some (run_wave p registry steps execs g fuel (id ∷ ids) r) _ stop
              (rw (more, waves) at e) in
          let kept = rule.wave r t h (rw more went) in
          after n k t stop kept (λ s. waves_end n (suc k) t s kept) (err_at k) rest
    ]

    pub waves_ind :
        (n k : ℕ) (r : Run) (stop : Stop)
        → P r
        → waves p registry steps execs g err_at n fuel k r ≡ some stop
        → P stop.run
    waves_ind n k r stop h e = (waves_end n k r stop h e).kept
