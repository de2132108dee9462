-- ===== src/Engine/Loop.antt =====
-- executor.go, executeDAG: its loop over the waves.
pub mod Halts
pub mod Rule
pub mod Termination
use react_go_workflow.Prelude.{ℕ, zero, suc, Option, none, some, List, [], ◌∷◌}
use react_go_workflow.Engine.Errors.{Error, cancelled_by_user, workflow_timed_out}
use react_go_workflow.Engine.Types.{Uuid, Step, Registry}
use react_go_workflow.Engine.Graph.{Platform, Graph}
use react_go_workflow.Engine.Skip.{Run}
use react_go_workflow.Engine.Clock.{CtxErr, canceled}
use react_go_workflow.Engine.Dag.{ready, run_wave}

-- Where the loop stopped, and how often it had read ctx.Err().
pub record Stop : Type 0 where
  pub run : Run
  pub reads : ℕ

abbrev pub interruption : Option CtxErr → Error
interruption (some canceled) = cancelled_by_user
interruption _ = workflow_timed_out

module _ (p : Platform) (registry : Registry) (steps : List Step) (execs : List Uuid) (g : Graph)
    (err_at : ℕ → Option CtxErr) where
  abbrev wave_of : ℕ → List Uuid → Run → Option Run
  wave_of fuel wave r = run_wave p registry steps execs g fuel wave r

  -- The `for` loop of executeDAG from the `k`-th read of ctx.Err() on. The first number bounds the
  -- rounds, and the second the depth of skipBranch; `none` means that one of them ran out.
  unfoldable pub waves : ℕ → ℕ → ℕ → Run → Option Stop
  unfolding ready run_wave
  waves zero fuel k r = none
  waves (suc n) fuel k r = elim (ready steps r) [
    | [] ↦ some (record { run = r; reads = k })
    | id ∷ ids ↦ elim (wave_of fuel (id ∷ ids) r) [
      | none ↦ none
      | some r' ↦ elim (err_at k) [
        | none ↦ waves n fuel (suc k) r'
        | some _ ↦
            let stopped = record r' { execution_err = some (interruption (err_at (suc k))) } in
            some (record { run = stopped; reads = suc (suc k) })
      ]
    ]
  ]
