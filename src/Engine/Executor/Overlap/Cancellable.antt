-- ===== src/Engine/Executor/Overlap/Cancellable.antt =====
-- internal/engine/executor.go: which executions can be cancelled, where calls of Execute overlap.
use react_go_workflow.Prelude.{◌≡◌, ◌∙◌}
use react_go_workflow.Engine.Types.{Uuid}
use react_go_workflow.Engine.Executor.{Server, cancel, is_live, cancelling, returning, serve}
use react_go_workflow.Engine.Executor.Cancelling.{
  IsCancellable, cancellable_new, serve-IsCancellable, cancel_answer,
}
use react_go_workflow.Engine.Executor.Overlap.{
  Phase, Move, load_fails, loads_empty, loads, needs_no_query, query_fails, finds_running,
  finds_none, create_fails, creates, adds_step, step_fails, starts, Overlapping, Turn, moves,
  cancels, returns, Reach, here, next,
}

Move-IsCancellable : {v t : Server} {p q : Phase} → Move v p t q → IsCancellable v → IsCancellable t
Move-IsCancellable (load_fails v) h = h
Move-IsCancellable (loads_empty v wf q) h = h
Move-IsCancellable (loads v wf s l q) h = h
Move-IsCancellable (needs_no_query v wf q) h = h
Move-IsCancellable (query_fails v wf q) h = h
Move-IsCancellable (finds_running v wf q there) h = h
Move-IsCancellable (finds_none v wf q there) h = h
Move-IsCancellable (create_fails v wf) h = h
Move-IsCancellable (creates v wf id new) h = h
Move-IsCancellable (adds_step v wf id s l) h = h
Move-IsCancellable (step_fails v wf id s l) h = h
Move-IsCancellable (starts v wf id) h = cancellable_new id v h

Turn-IsCancellable :
    {w u : Overlapping} → Turn w u → IsCancellable w.server → IsCancellable u.server
unfolding serve
Turn-IsCancellable (moves i t p move is) h = rw is (Move-IsCancellable move h)
Turn-IsCancellable {w} (cancels id is) h = rw is (serve-IsCancellable (cancelling id) w.server h)
Turn-IsCancellable {w} (returns id s is) h = rw is (serve-IsCancellable (returning id s) w.server h)

Reach-IsCancellable :
    {w u : Overlapping} → Reach w u → IsCancellable w.server → IsCancellable u.server
Reach-IsCancellable here h = h
Reach-IsCancellable (next r turn) h = Turn-IsCancellable turn (Reach-IsCancellable r h)

-- In whatever order the moves of the calls of Execute follow one another, with cancellations and
-- returns of goroutines between them, Cancel finds a cancel function exactly for the executions whose
-- goroutine has not returned, if that holds at first.
pub cancel-Reach :
    {w u : Overlapping} (id : Uuid)
    → Reach w u
    → IsCancellable w.server
    → (cancel id u.server).0 ≡ is_live id u.server.live
cancel-Reach {u = u} id r h = cancel_answer u.server id ∙ Reach-IsCancellable r h id
