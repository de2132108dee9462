-- ===== src/Engine/Waiting/Taken.antt =====
-- Whether the database takes the update that ends the row is the same all along.
use react_go_workflow.Prelude.{◌≡◌, refl, ap, ◌∙◌}
use react_go_workflow.Engine.Types.{
  Effect, start_step, complete_step, fail_step, skip_step, publish, sleep, end_execution, notify,
}
use react_go_workflow.Engine.Waiting.{
  Waiting, do_effect, Step, executes, finds_ended, finds_running, check_fails, subscribes,
  receives_end, receives_other, times_out, fetches, fetch_fails, Reach, here, next,
}

-- The database takes the update or not for the whole of the run.
Step-takes : (w u : Waiting) → Step w u → u.takes ≡ w.takes
Step-takes w u (executes e l is to) = ap (λ (x : Waiting). x.takes) to ∙ same e
  where
    same : (e : Effect) → (do_effect e (record w { left = l })).takes ≡ w.takes
    same (end_execution s m o) = refl
    same (publish e) = refl
    same (notify s m) = refl
    same (start_step id) = refl
    same (complete_step id o n) = refl
    same (fail_step id m) = refl
    same (skip_step id) = refl
    same (sleep d) = refl
Step-takes w u (finds_ended p t to) = ap (λ (x : Waiting). x.takes) to
Step-takes w u (finds_running p t to) = ap (λ (x : Waiting). x.takes) to
Step-takes w u (check_fails p to) = ap (λ (x : Waiting). x.takes) to
Step-takes w u (subscribes p to) = ap (λ (x : Waiting). x.takes) to
Step-takes w u (receives_end e rest p c ends to) = ap (λ (x : Waiting). x.takes) to
Step-takes w u (receives_other e rest p c other to) = ap (λ (x : Waiting). x.takes) to
Step-takes w u (times_out p to) = ap (λ (x : Waiting). x.takes) to
Step-takes w u (fetches p to) = ap (λ (x : Waiting). x.takes) to
Step-takes w u (fetch_fails p to) = ap (λ (x : Waiting). x.takes) to

pub Reach-takes : (w u : Waiting) → Reach w u → u.takes ≡ w.takes
Reach-takes w u here = refl
Reach-takes w u (next {u = t} r s) = Step-takes t u s ∙ Reach-takes w t r
