-- ===== src/Engine/Executor.antt =====
-- internal/engine/executor.go: Execute and Cancel, on the table of the executions and the map of the
-- cancel functions. The calls follow one another; what executeDAG does in between is in Engine/Execution.
pub mod AtMostOne
pub mod Cancelling
pub mod Orphans
pub mod Overlap
use react_go_workflow.Prelude.{
  ℕ, Bool, true, false, ◌&&◌, ◌||◌, not, Option, none, some, List, [], ◌∷◌, ◌++◌, map, ◌==◌,
  if◌then◌else◌, update,
}
use react_go_workflow.Engine.Types.{
  Uuid, Step, Workflow, Concurrency, allow, skip, queue, Status, running,
}

-- A row of workflow_executions with the steps that have a row of step_executions.
pub record Execution : Type 0 where
  pub id : Uuid
  pub workflow_id : Uuid
  pub status : Status
  pub step_rows : List Uuid

-- What the calls change: the tables, the map `cancels`, and which contexts are cancelled. `live` lists
-- the executions whose goroutine has not returned.
pub record Server : Type 0 where
  pub executions : List Execution
  pub cancels : Uuid → Bool
  pub cancelled : Uuid → Bool
  pub live : List Uuid

-- What the database answers to one call of Execute: the workflow, whether the query for a running
-- execution works, the id of the new row, and whether the row of a step can be created.
pub record Answers : Type 0 where
  pub workflow : Option Workflow
  pub can_query : Bool
  pub new_id : Option Uuid
  pub can_create : Uuid → Bool

pub data ExecuteError : Type 0 where
  load_workflow no_steps query_failed execution_skipped create_execution create_step : ExecuteError

-- The id that Execute returns, uuid.Nil where there is none, its error, and what it leaves.
pub record Executed : Type 0 where
  pub id : Uuid
  pub error : Option ExecuteError
  pub server : Server

abbrev pub is_running : Status → Bool
is_running running = true
is_running _ = false

-- Exist on the running executions of a workflow.
unfoldable pub has_running : Uuid → List Execution → Bool
has_running wf [] = false
has_running wf (x ∷ l) = (x.workflow_id == wf && is_running x.status) || has_running wf l

-- The loop that creates the rows of the steps: those created, and whether it came to its end.
pub record StepRows : Type 0 where
  pub rows : List Uuid
  pub complete : Bool

unfoldable pub create_step_rows : (Uuid → Bool) → List Step → StepRows
create_step_rows ok [] = record { rows = []; complete = true }
create_step_rows ok (s ∷ steps) =
    let later = create_step_rows ok steps in
    if ok s.id
    then record later { rows = s.id ∷ later.rows }
    else record { rows = []; complete = false }

abbrev pub refuse : ExecuteError → Server → Executed
refuse e v = record { id = 0; error = some e; server = v }

abbrev pub add_row : Uuid → Uuid → List Uuid → Server → Server
add_row id wf rows v = record v {
  executions =
      record { id = id; workflow_id = wf; status = running; step_rows = rows } ∷ v.executions;
}

-- From the creation of the execution's row on.
abbrev pub create : Answers → Workflow → Server → Executed
create a wf v = elim a.new_id [
  | none ↦ refuse create_execution v
  | some id ↦
      let made = create_step_rows a.can_create wf.steps in
      let row = add_row id wf.id made.rows v in
      if made.complete
      then record {
        id = id;
        error = none;
        server = record row { cancels = update row.cancels id true; live = id ∷ row.live };
      }
      else record { id = id; error = some create_step; server = row }
]

-- The concurrency policy.
abbrev pub admit : Answers → Workflow → Server → Executed
admit a wf v = elim wf.concurrency [
  | skip ↦
      if not a.can_query
      then refuse query_failed v
      else if has_running wf.id v.executions
      then refuse execution_skipped v
      else create a wf v
  | _ ↦ create a wf v
]

abbrev pub execute_loaded : Answers → Workflow → Server → Executed
execute_loaded a wf v = elim wf.steps [ [] ↦ refuse no_steps v | _ ∷ _ ↦ admit a wf v ]

-- Execute
unfoldable pub execute : Answers → Server → Executed
unfolding has_running create_step_rows
execute a v = elim a.workflow [ none ↦ refuse load_workflow v | some wf ↦ execute_loaded a wf v ]

-- Cancel: whether there was a cancel function, and what it leaves.
unfoldable pub cancel : Uuid → Server → Bool × Server
cancel id v =
    if v.cancels id then (true, record v { cancelled = update v.cancelled id true }) else (false, v)

unfoldable pub set_status : Uuid → Status → List Execution → List Execution
set_status id s [] = []
set_status id s (x ∷ l) = (if x.id == id then record x { status = s } else x) ∷ set_status id s l

unfoldable pub remove_live : Uuid → List Uuid → List Uuid
remove_live id [] = []
remove_live id (j ∷ l) = if j == id then remove_live id l else j ∷ remove_live id l

unfoldable pub is_live : Uuid → List Uuid → Bool
is_live id [] = false
is_live id (j ∷ l) = j == id || is_live id l

-- The goroutine of an execution returns: executeDAG has written the final status, and the deferred
-- function deletes the cancel function. Only a goroutine that exists returns.
unfoldable pub return_from : Uuid → Status → Server → Server
unfolding set_status remove_live is_live
return_from id s v =
    if is_live id v.live
    then record v {
      executions = set_status id s v.executions;
      cancels = update v.cancels id false;
      live = remove_live id v.live;
    }
    else v

pub data Request : Type 0 where
  executing : Answers → Request
  cancelling : Uuid → Request
  returning : Uuid → Status → Request

unfoldable pub serve : Request → Server → Server
unfolding execute cancel return_from
serve (executing a) v = (execute a v).server
serve (cancelling id) v = (cancel id v).1
serve (returning id s) v = return_from id s v

unfoldable pub serve_all : List Request → Server → Server
unfolding serve
serve_all [] v = v
serve_all (q ∷ l) v = serve_all l (serve q v)
