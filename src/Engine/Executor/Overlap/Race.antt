-- ===== src/Engine/Executor/Overlap/Race.antt =====
-- internal/engine/executor.go, Execute: the policy `skip`, where two calls overlap.
use react_go_workflow.Prelude.{
  ℕ, ◌≡◌, ◌≢◌, refl, sym, ap, ◌∙◌, subst, true, false, none, some, List, [], ◌∷◌, ==_refl, arith,
  update,
}
use mathlib.Core.Option.{some_inj}
use react_go_workflow.Engine.Types.{Uuid, Step, Workflow, skip}
use react_go_workflow.Engine.Executor.{
  Server, Answers, Executed, has_running, create_step_rows, add_row, is_live,
}
use react_go_workflow.Engine.Executor.AtMostOne.{running_rows, running_rows-none}
use react_go_workflow.Engine.Executor.Overlap.{
  Phase, idle, admitted, returned, has_id, start, Move, loads, finds_none, Runs, stop, more,
  Overlapping, moves, Reach, here, next,
}
use react_go_workflow.Engine.Executor.Overlap.Alone.{create-Returns}

-- The system with the server and the phase that the moves of a call lead to.
record Moved (w u : Overlapping) (i : ℕ) (v : Server) (p : Phase) : Type 0 where
  pub last : Overlapping
  pub reach : Reach w last
  pub server : last.server ≡ v
  pub call : last.calls i ≡ p
  pub others : (j : ℕ) → j ≢ i → last.calls j ≡ u.calls j

-- The moves of one call are moves of the system.
Runs-Moved :
    {w : Overlapping} (u : Overlapping) (i : ℕ)
    → Reach w u
    → {v : Server} {p : Phase} → Runs u.server (u.calls i) v p
    → Moved w u i v p
Runs-Moved u i r stop = record {
  last = u;
  reach = r;
  server = refl;
  call = refl;
  others = λ j n. refl;
}
Runs-Moved u i r (more {s} {t} {q} {r = p} runs move) =
    let m = Runs-Moved u i r runs in
    record {
      last = record { server = t; calls = update m.last.calls i p };
      reach = next m.reach (
          moves i t p
            (subst (λ x. Move x (m.last.calls i) t p) (sym m.server)
              (subst (λ x. Move s x t p) (sym m.call) move))
            refl);
      server = refl;
      call = ground arith;
      others = λ j n. ground (arith, n, m.others j n);
    }

turn :
    {w : Overlapping} (u : Overlapping) (i : ℕ) {v t : Server} {p q : Phase}
    → Reach w u
    → u.server ≡ v
    → u.calls i ≡ p
    → Runs v p t q
    → Moved w u i t q
turn u i {v} {t} {p} {q} r same call runs =
    Runs-Moved u i r
      (subst (λ x. Runs x (u.calls i) t q) (sym same) (subst (λ x. Runs v x t q) (sym call) runs))

-- The database finds the workflow, and takes a new id and the rows of all steps.
abbrev working : Workflow → Uuid → Answers
working wf id = record {
  workflow = some wf;
  can_query = true;
  new_id = some id;
  can_create = λ s. true;
}

all_created : (l : List Step) → (create_step_rows (λ s. true) l).complete ≡ true
unfolding create_step_rows
all_created [] = refl
all_created (s ∷ l) = all_created l

-- A call that has gone through the policy starts its execution.
abbrev started : Workflow → Uuid → Server → Server
started wf id v = start id (add_row id wf.id (create_step_rows (λ s. true) wf.steps).rows v)

starts_admitted :
    (wf : Workflow) (id : Uuid) (v : Server)
    → has_id id v.executions ≡ false
    → Runs v (admitted wf) (started wf id v) (returned id none)
starts_admitted wf id v new =
    subst {A = Executed} (λ x. Runs v (admitted wf) x.server (returned x.id x.error))
      (rw (all_created wf.steps) refl) (create-Returns (working wf id) v wf fresh stop)
  where
    fresh : (j : Uuid) → some id ≡ some j → has_id j v.executions ≡ false
    fresh j is = subst (λ k. has_id k v.executions ≡ false) (some_inj.0 is) new

-- Two calls have started an execution of the workflow, and both run.
pub record Raced (wf first second : Uuid) (u : Overlapping) : Type 0 where
  pub one : u.calls 0 ≡ returned first none
  pub two : u.calls 1 ≡ returned second none
  pub rows : running_rows wf u.server.executions ≡ 2
  pub live : (is_live first u.server.live ≡ true) × (is_live second u.server.live ≡ true)

-- The policy `skip` does not keep two executions of a workflow from running at once: whatever
-- workflow with a step has it, if no execution of the workflow runs and two calls of Execute for it
-- overlap, there is an order of their moves, with any two different new ids for the rows, in which both calls return
-- without an error, each has started its execution, and both executions run.
pub execute_raced :
    (w : Overlapping) (wf : Workflow) (s : Step) (l : List Step) (first second : Uuid)
    → wf.steps ≡ s ∷ l
    → wf.concurrency ≡ skip
    → w.calls 0 ≡ idle
    → w.calls 1 ≡ idle
    → has_running wf.id w.server.executions ≡ false
    → first ≢ second
    → has_id first w.server.executions ≡ false
    → has_id second w.server.executions ≡ false
    → (u : Overlapping) × Reach w u × Raced wf.id first second u
unfolding has_id is_live
execute_raced w wf s l first second steps policy zero' one' none' apart new new' =
    let v = w.server in
    let admits : Runs v idle v (admitted wf) =
      more (more stop (loads v wf s l steps)) (finds_none v wf policy none') in
    let t = started wf first v in
    let new_t : has_id second t.executions ≡ false = ground (arith, apart, new') in
    let a = turn w 0 here refl zero' admits in
    let b = turn a.last 1 a.reach a.server (a.others 1 (λ q. absurd cc) ∙ one') admits in
    let c =
      turn b.last 0 b.reach b.server (b.others 0 (λ q. absurd cc) ∙ a.call)
        (starts_admitted wf first v new) in
    let d =
      turn c.last 1 c.reach c.server (c.others 1 (λ q. absurd cc) ∙ b.call)
        (starts_admitted wf second t new_t) in
    (
      d.last,
      d.reach,
      record {
        one = d.others 0 (λ q. absurd cc) ∙ c.call;
        two = d.call;
        rows =
            ap (λ x. running_rows wf.id x.executions) d.server
            ∙ rw (==_refl wf.id, running_rows-none wf.id v.executions none') refl;
        live = rw (d.server, ==_refl first, ==_refl second) (ground arith, refl);
      },
    )
