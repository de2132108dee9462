-- ===== src/Engine/Executor/Overlap.antt =====
-- internal/engine/executor.go: calls of Execute at once. Each query or insertion of a call is one move, and the
-- moves of different calls follow one another in any order.
pub mod Alone
pub mod Cancellable
pub mod Race
use react_go_workflow.Prelude.{
  ℕ, ◌≡◌, ◌≢◌, Bool, true, false, Option, none, some, List, [], ◌∷◌, ◌++◌, ◌==◌, ◌||◌,
  if◌then◌else◌, update,
}
use react_go_workflow.Engine.Types.{Uuid, Step, Workflow, skip, Status}
use react_go_workflow.Engine.Executor.{
  Execution, Server, ExecuteError, load_workflow, no_steps, query_failed, execution_skipped,
  create_execution, create_step, has_running, add_row, cancel, return_from,
}

-- How far a call has come: its workflow is loaded, its policy lets it through, the row of its execution is
-- there and so are those of the steps before the ones that are left, or it has returned.
pub data Phase : Type 0 where
  idle : Phase
  loaded admitted : Workflow → Phase
  created : Workflow → Uuid → (left : List Step) → Phase
  returned : Uuid → Option ExecuteError → Phase

unfoldable pub add_step_row : Uuid → Uuid → List Execution → List Execution
add_step_row id s [] = []
add_step_row id s (x ∷ l) =
    (if x.id == id then record x { step_rows = x.step_rows ++ s ∷ [] } else x) ∷ add_step_row id s l

abbrev pub start : Uuid → Server → Server
start id v = record v { cancels = update v.cancels id true; live = id ∷ v.live }

-- The table has a row with the primary key.
unfoldable pub has_id : Uuid → List Execution → Bool
has_id id [] = false
has_id id (x ∷ l) = x.id == id || has_id id l

-- One move of a call; what the database answers is open, but it takes a primary key only once.
pub data Move : Server → Phase → Server → Phase → Type 0 where
  load_fails : (v : Server) → Move v idle v (returned 0 (some load_workflow))
  loads_empty :
      (v : Server) (wf : Workflow) → wf.steps ≡ [] → Move v idle v (returned 0 (some no_steps))
  loads :
      (v : Server) (wf : Workflow) (s : Step) (l : List Step)
      → wf.steps ≡ s ∷ l
      → Move v idle v (loaded wf)
  needs_no_query :
      (v : Server) (wf : Workflow) → wf.concurrency ≢ skip → Move v (loaded wf) v (admitted wf)
  query_fails :
      (v : Server) (wf : Workflow)
      → wf.concurrency ≡ skip
      → Move v (loaded wf) v (returned 0 (some query_failed))
  finds_running :
      (v : Server) (wf : Workflow)
      → wf.concurrency ≡ skip
      → has_running wf.id v.executions ≡ true
      → Move v (loaded wf) v (returned 0 (some execution_skipped))
  finds_none :
      (v : Server) (wf : Workflow)
      → wf.concurrency ≡ skip
      → has_running wf.id v.executions ≡ false
      → Move v (loaded wf) v (admitted wf)
  create_fails :
      (v : Server) (wf : Workflow) → Move v (admitted wf) v (returned 0 (some create_execution))
  creates :
      (v : Server) (wf : Workflow) (id : Uuid)
      → has_id id v.executions ≡ false
      → Move v (admitted wf) (add_row id wf.id [] v) (created wf id wf.steps)
  adds_step :
      (v : Server) (wf : Workflow) (id : Uuid) (s : Step) (l : List Step)
      → Move v
          (created wf id (s ∷ l))
          (record v { executions = add_step_row id s.id v.executions })
          (created wf id l)
  step_fails :
      (v : Server) (wf : Workflow) (id : Uuid) (s : Step) (l : List Step)
      → Move v (created wf id (s ∷ l)) v (returned id (some create_step))
  starts :
      (v : Server) (wf : Workflow) (id : Uuid)
      → Move v (created wf id []) (start id v) (returned id none)

-- Moves of one call, with nothing between them.
pub data Runs (v : Server) (p : Phase) : Server → Phase → Type 0 where
  stop : Runs v p v p
  more : {s t : Server} {q r : Phase} → Runs v p s q → Move s q t r → Runs v p t r

-- The calls by their numbers, over one server.
pub record Overlapping : Type 0 where
  pub server : Server
  pub calls : ℕ → Phase

pub data Turn (w u : Overlapping) : Type 0 where
  moves :
      (i : ℕ) (t : Server) (p : Phase)
      → Move w.server (w.calls i) t p
      → u ≡ record { server = t; calls = update w.calls i p }
      → Turn w u
  cancels : (id : Uuid) → u ≡ record w { server = (cancel id w.server).1 } → Turn w u
  returns :
      (id : Uuid) (s : Status) → u ≡ record w { server = return_from id s w.server } → Turn w u

pub data Reach (w : Overlapping) : Overlapping → Type 0 where
  here : Reach w w
  next : {u t : Overlapping} → Reach w u → Turn u t → Reach w t
