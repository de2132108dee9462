-- ===== src/Engine/Loop/Halts.antt =====
-- Where the loop over the waves halts, and what a read of ctx.Err() has to do with it.
use mathlib.Core.Option.{some_inj}
use react_go_workflow.Prelude.{
  ℕ, zero, suc, ◌≡◌, refl, inl, inr, Option, none, some, List, ◌∷◌, List-cases, then_some, subst,
}
use react_go_workflow.Engine.Types.{Uuid, Step, Registry}
use react_go_workflow.Engine.Graph.{Platform, Graph}
use react_go_workflow.Engine.Skip.{Run}
use react_go_workflow.Engine.Clock.{CtxErr}
use react_go_workflow.Engine.Dag.{ready, run_wave}
use react_go_workflow.Engine.Loop.{Stop, waves, interruption}

module _ (p : Platform) (registry : Registry) (steps : List Step) (execs : List Uuid) (g : Graph)
    (err_at : ℕ → Option CtxErr) (P : Run → Type 0) where
  -- It halts with what its waves keep, or after a read that met an error.
  pub data Halts (stop : Stop) : Type 0 where
    idle : P stop.run → Halts stop
    interrupted : (k : ℕ) (x : CtxErr) → err_at k ≡ some x → stop.reads ≡ suc (suc k) → Halts stop

  module _ (fuel : ℕ)
      (wave : (r t : Run)
        → P r
        → run_wave p registry steps execs g fuel (ready steps r) r ≡ some t
        → P t) where
    after :
        (n k : ℕ) (r : Run) (stop : Stop)
        → ((stop' : Stop)
            → waves p registry steps execs g err_at n fuel (suc k) r ≡ some stop'
            → Halts stop')
        → (x : Option CtxErr) → err_at k ≡ x
        → (elim x [
          | none ↦ waves p registry steps execs g err_at n fuel (suc k) r
          | some _ ↦ some (record {
            run = record r { execution_err = some (interruption (err_at (suc k))) };
            reads = suc (suc k);
          })
        ])
          ≡ some stop
        → Halts stop
    after n k r stop later none met e = later stop e
    after n k r stop later (some x) met e = subst Halts (some_inj.0 e) (interrupted k x met refl)

    pub waves-Halts :
        (n k : ℕ) (r : Run) (stop : Stop)
        → P r
        → waves p registry steps execs g err_at n fuel k r ≡ some stop
        → Halts stop
    unfolding waves
    waves-Halts zero k r stop h e = absurd cc
    waves-Halts (suc n) k r stop h e = elim (List-cases (ready steps r)) [
      | inl none_ready ↦ subst Halts (some_inj.0 (rw (none_ready, waves) at e)) (idle h)
      | inr (id, ids, more) ↦
          let (t, went, rest) =
            then_some (run_wave p registry steps execs g fuel (id ∷ ids) r) _ stop
              (rw (more, waves) at e) in
          let kept = wave r t h (rw more went) in
          after n k t stop (λ s. waves-Halts n (suc k) t s kept) (err_at k) refl rest
    ]
