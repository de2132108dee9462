-- ===== src/Engine/Executor/Cancelling.antt =====
-- What Execute leaves on each of its branches, and which executions can be cancelled.
use react_go_workflow.Prelude.{
  ◌≡◌, ◌≢◌, refl, ◌∙◌, inl, inr, Bool, true, false, not, Option, none, some, List, [], ◌∷◌, ◌==◌,
  arith, Bool-cases, Option-cases, if◌then◌else◌, update,
}
use react_go_workflow.Engine.Types.{Uuid, Step, Workflow, Concurrency, allow, skip, queue, running}
use react_go_workflow.Engine.Executor.{
  Server, Answers, ExecuteError, load_workflow, no_steps, query_failed, execution_skipped,
  create_execution, create_step, Executed, has_running, create_step_rows, refuse, create, admit,
  execute_loaded, execute, cancel, remove_live, is_live, return_from, Request, executing,
  cancelling, returning, serve, serve_all,
}

-- An execution has a cancel function while its goroutine is there, and only then.
abbrev pub IsCancellable : Server → Type 0
IsCancellable v = (j : Uuid) → v.cancels j ≡ is_live j v.live

-- Execute leaves the server as it was, adds a running execution with its goroutine, or adds a running
-- execution and returns because of a step's row.
pub data Executes (a : Answers) (v : Server) (x : Executed) : Type 0 where
  refused :
      (e : ExecuteError)
      → e ≢ create_step
      → x ≡ record { id = 0; error = some e; server = v }
      → Executes a v x
  started :
      (wf : Workflow) (id : Uuid) (rows : List Uuid)
      → a.workflow ≡ some wf
      → a.new_id ≡ some id
      → x ≡ record {
        id = id;
        error = none;
        server = record {
          executions =
              record { id = id; workflow_id = wf.id; status = running; step_rows = rows }
              ∷ v.executions;
          cancels = update v.cancels id true;
          cancelled = v.cancelled;
          live = id ∷ v.live;
        };
      }
      → Executes a v x
  orphaned :
      (wf : Workflow) (id : Uuid) (rows : List Uuid)
      → a.workflow ≡ some wf
      → a.new_id ≡ some id
      → x ≡ record {
        id = id;
        error = some create_step;
        server = record v {
          executions =
              record { id = id; workflow_id = wf.id; status = running; step_rows = rows }
              ∷ v.executions;
        };
      }
      → Executes a v x

module _ (a : Answers) (v : Server) where
  create-Executes : (wf : Workflow) → a.workflow ≡ some wf → Executes a v (create a wf v)
  create-Executes wf is = elim (Option-cases a.new_id) [
    | inl failed ↦ refused create_execution (λ e. cc) (rw failed refl)
    | inr (id, new) ↦ elim (Bool-cases (create_step_rows a.can_create wf.steps).complete) [
      | inl all ↦
          started wf id (create_step_rows a.can_create wf.steps).rows is new (rw (new, all) refl)
      | inr some' ↦
          orphaned wf id (create_step_rows a.can_create wf.steps).rows is new (rw (new, some') refl)
    ]
  ]

  admit-Executes : (wf : Workflow) → a.workflow ≡ some wf → Executes a v (admit a wf v)
  admit-Executes wf is = go wf.concurrency
    where
      go :
          (k : Concurrency)
          → Executes a v (elim k [
            | skip ↦
                if not a.can_query
                then refuse query_failed v
                else if has_running wf.id v.executions
                then refuse execution_skipped v
                else create a wf v
            | _ ↦ create a wf v
          ])
      go allow = create-Executes wf is
      go queue = create-Executes wf is
      go skip = test (not a.can_query) (has_running wf.id v.executions)
        where
          test :
              (b c : Bool)
              → Executes a v (
                  if b
                  then refuse query_failed v
                  else if c
                  then refuse execution_skipped v
                  else create a wf v)
          test true c = refused query_failed (λ e. cc) refl
          test false true = refused execution_skipped (λ e. cc) refl
          test false false = create-Executes wf is

  pub execute-Executes : Executes a v (execute a v)
  unfolding execute
  execute-Executes = go a.workflow refl
    where
      loaded :
          (wf : Workflow)
          → a.workflow ≡ some wf
          → (l : List Step)
          → Executes a v (elim l [ [] ↦ refuse no_steps v | _ ∷ _ ↦ admit a wf v ])
      loaded wf is [] = refused no_steps (λ e. cc) refl
      loaded wf is (s ∷ l) = admit-Executes wf is

      go :
          (o : Option Workflow)
          → a.workflow ≡ o
          → Executes a v
              (elim o [ none ↦ refuse load_workflow v | some wf ↦ execute_loaded a wf v ])
      go none is = refused load_workflow (λ e. cc) refl
      go (some wf) is = loaded wf is wf.steps

pub cancellable_new :
    (id : Uuid) (v : Server)
    → IsCancellable v
    → (j : Uuid) → update v.cancels id true j ≡ is_live j (id ∷ v.live)
unfolding is_live
cancellable_new id v h j = ground (arith, h j)

pub live_without :
    (id j : Uuid) (l : List Uuid)
    → is_live j (remove_live id l) ≡ (if id == j then false else is_live j l)
unfolding is_live remove_live
live_without id j [] = ground arith
live_without id j (k ∷ l) = ground (arith, live_without id j l)

execute-IsCancellable :
    (a : Answers) (v : Server) → IsCancellable v → IsCancellable (execute a v).server
execute-IsCancellable a v h = go (execute-Executes a v)
  where
    go : Executes a v (execute a v) → IsCancellable (execute a v).server
    go (refused e other is) = rw is h
    go (started wf id rows loaded new is) = rw is (cancellable_new id v h)
    go (orphaned wf id rows loaded new is) = rw is h

pub serve-IsCancellable : (q : Request) (v : Server) → IsCancellable v → IsCancellable (serve q v)
unfolding serve
serve-IsCancellable (executing a) v h = execute-IsCancellable a v h
serve-IsCancellable (cancelling id) v h = elim (Bool-cases (v.cancels id)) [
  | inl there ↦ rw (there, serve, cancel) h
  | inr not_there ↦ rw (not_there, serve, cancel) h
]
serve-IsCancellable (returning id s) v h = elim (Bool-cases (is_live id v.live)) [
  | inl there ↦ rw (there, serve, return_from) (λ j. ground (arith, h j, live_without id j v.live))
  | inr not_there ↦ rw (not_there, serve, return_from) h
]

pub serve_all-IsCancellable :
    (l : List Request) (v : Server) → IsCancellable v → IsCancellable (serve_all l v)
unfolding serve_all
serve_all-IsCancellable [] v h = h
serve_all-IsCancellable (q ∷ l) v h =
    serve_all-IsCancellable l (serve q v) (serve-IsCancellable q v h)

pub cancel_answer : (t : Server) (id : Uuid) → (cancel id t).0 ≡ t.cancels id
cancel_answer t id = elim (Bool-cases (t.cancels id)) [
  | inl there ↦ unfold cancel in rw (there, cancel) refl
  | inr not_there ↦ unfold cancel in rw (not_there, cancel) refl
]

-- After any sequence of calls of Execute, cancellations and returns of goroutines, Cancel finds a cancel
-- function exactly for the executions whose goroutine has not returned.
pub cancel-serve_all :
    (l : List Request) (v : Server) (id : Uuid)
    → IsCancellable v
    → (cancel id (serve_all l v)).0 ≡ is_live id (serve_all l v).live
cancel-serve_all l v id h = cancel_answer (serve_all l v) id ∙ serve_all-IsCancellable l v h id
