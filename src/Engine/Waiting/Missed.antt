-- ===== src/Engine/Waiting/Missed.antt =====
-- executor.go, WaitForCompletion: the execution that ends between the first look and the subscription.
use react_go_workflow.Prelude.{
  ◌≡◌, refl, sym, ap, ◌∙◌, subst, true, none, some, List, [], ◌∷◌, ◌++◌, Text,
}
use react_go_workflow.Value.{Object}
use react_go_workflow.Engine.Types.{
  Status, Effect, start_step, complete_step, fail_step, skip_step, publish, sleep, end_execution,
  notify, Workflow,
}
use react_go_workflow.Engine.Execution.{Setting, ending, execute_dag}
use react_go_workflow.Engine.Execution.Ends.{IsTerminal, execute_dag-Ended}
use react_go_workflow.Engine.Waiting.{
  timed_out, subscribing, waiting, Waiting, do_effect, return_with, Step, executes, finds_ended,
  finds_running, check_fails, subscribes, receives_end, receives_other, times_out, fetches,
  fetch_fails, Reach, here, next, start,
}

-- The goroutine of the execution runs to its end.
abbrev pub do_all : List Effect → Waiting → Waiting
do_all [] w = w
do_all (e ∷ l) w = do_all l (do_effect e (record w { left = l }))

abbrev IsSame : Waiting → Waiting → Type 0
IsSame u w = (u.left ≡ w.left) × (u.phase ≡ w.phase) × (u.takes ≡ w.takes)

do_effect-IsSame : (e : Effect) (w : Waiting) → IsSame (do_effect e w) w
do_effect-IsSame (end_execution s m o) w = (refl, refl, refl)
do_effect-IsSame (publish e) w = (refl, refl, refl)
do_effect-IsSame (notify s m) w = (refl, refl, refl)
do_effect-IsSame (start_step id) w = (refl, refl, refl)
do_effect-IsSame (complete_step id o n) w = (refl, refl, refl)
do_effect-IsSame (fail_step id m) w = (refl, refl, refl)
do_effect-IsSame (skip_step id) w = (refl, refl, refl)
do_effect-IsSame (sleep d) w = (refl, refl, refl)

do_all-row :
    (before : List Effect) (status : Status) (error : Text) (output : Object) (w : Waiting)
    → w.takes ≡ true
    → (do_all (before ++ ending status error output) w).row ≡ status
do_all-row [] status error output w takes = rw takes refl
do_all-row (e ∷ before) status error output w takes =
    do_all-row before status error output _
      ((do_effect-IsSame e (record w { left = before ++ ending status error output })).2 ∙ takes)

-- It can do so wherever the call is.
pub do_all-Reach :
    (s w : Waiting) (l : List Effect)
    → Reach s w
    → w.left ≡ l
    → Reach s (do_all l w) × ((do_all l w).left ≡ []) × ((do_all l w).phase ≡ w.phase)
do_all-Reach s w [] r is = (r, is, refl)
do_all-Reach s w (e ∷ l) r is =
    let v = record w { left = l } in
    let same = do_effect-IsSame e v in
    let rest = do_all-Reach s (do_effect e v) l (next r (executes e l is refl)) same.0 in
    (rest.0, rest.1, rest.2 ∙ same.1)

-- A call with an empty channel, beside a goroutine that has ended.
module _ (w : Waiting) where
  only_times_out :
      w.left ≡ []
      → w.phase ≡ waiting
      → w.channel ≡ some []
      → (u : Waiting) → Step w u
      → u ≡ return_with timed_out w
  only_times_out l p c u (executes e rest is to) = absurd cc
  only_times_out l p c u (finds_ended q t to) = absurd cc
  only_times_out l p c u (finds_running q t to) = absurd cc
  only_times_out l p c u (check_fails q to) = absurd cc
  only_times_out l p c u (subscribes q to) = absurd cc
  only_times_out l p c u (receives_end e rest q is ends to) = absurd cc
  only_times_out l p c u (receives_other e rest q is ends to) = absurd cc
  only_times_out l p c u (times_out q to) = to
  only_times_out l p c u (fetches q to) = absurd cc
  only_times_out l p c u (fetch_fails q to) = absurd cc

-- A call of WaitForCompletion that is stuck beside an execution that has ended.
pub record Missed (w : Waiting) : Type 0 where
  pub ended : IsTerminal w.row
  pub over : w.left ≡ []
  pub waits : w.phase ≡ waiting
  pub only : (u : Waiting) → Step w u → u ≡ return_with timed_out w

-- For every execution there is an order of steps in which WaitForCompletion misses its end, with the
-- update that ends the row taken by the database: the execution is over and its row says so, and all
-- that is left to the call, which waits, is to time out.
pub execute_dag-Missed :
    (e : Setting) (wf : Workflow) (input : Object) (effects : List Effect)
    → execute_dag e wf input ≡ some effects
    → (w : Waiting) × Reach (start true effects) w × Missed w
execute_dag-Missed e wf input effects is =
    let (made, ran, ended) = execute_dag-Ended e wf input in
    let same : made ≡ effects = ap (λ o. elim o [ some l ↦ l | none ↦ [] ]) (sym ran ∙ is) in
    let split = sym same ∙ ended.split in
    let s = start true effects in
    let v = record s { phase = subscribing } in
    let runs = do_all-Reach s v effects (next here (finds_running refl refl refl)) refl in
    let t = do_all effects v in
    let row : t.row ≡ ended.status =
      subst (λ l. (do_all l v).row ≡ ended.status) (sym split)
        (do_all-row ended.before ended.status ended.error ended.output v refl) in
    let w = record t { channel = some []; phase = waiting } in
    (
      w,
      next runs.0 (subscribes runs.2 refl),
      record {
        ended = subst IsTerminal (sym row) ended.terminal;
        over = runs.1;
        waits = refl;
        only = only_times_out w runs.1 refl refl;
      },
    )
