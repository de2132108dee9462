-- ===== src/Engine/Waiting/Answers.antt =====
-- What status an execution has that WaitForCompletion returns.
use mathlib.Core.Bool.{false≢true}
use mathlib.Core.List.{head-eq_of_cons-eq, tail-eq_of_cons-eq}
use react_go_workflow.Prelude.{
  ◌≡◌, ◌≢◌, refl, sym, ap, ◌∙◌, subst, inl, inr, Bool, true, false, Option, none, some, List, [],
  ◌∷◌, ◌++◌, All, length, ltb, if◌then◌else◌, Text,
}
use react_go_workflow.Value.{Object}
use react_go_workflow.Engine.Types.{
  Status, pending, running, completed, failed, skipped, cancelled, EventType, step_status, step_log,
  execution_status, Event, Effect, start_step, complete_step, fail_step, skip_step, publish, sleep,
  end_execution, notify, Workflow,
}
use react_go_workflow.Engine.EventBus.{capacity}
use react_go_workflow.Engine.Attempts.Laws.{IsStepEffect, All-append}
use react_go_workflow.Engine.Execution.{Setting, ending, execute_dag}
use react_go_workflow.Engine.Execution.Ends.{IsTerminal, execute_dag-Ended}
use react_go_workflow.Engine.Waiting.Taken.{Reach-takes}
use react_go_workflow.Engine.Waiting.{
  found, timed_out, query_failed, Phase, checking, subscribing, waiting, fetching, returned,
  Waiting, is_terminal, ends_wait, push, do_effect, Step, executes, finds_ended, finds_running,
  check_fails, subscribes, receives_end, receives_other, times_out, fetches, fetch_fails, Reach,
  here, next, start,
}

abbrev IsQuiet : Option (List Event) → Type 0
IsQuiet none = Unit
IsQuiet (some buffer) = All (λ e. ends_wait e ≡ false) buffer

-- Neither waits for the row nor has it.
abbrev IsEarly : Phase → Type 0
IsEarly checking = Unit
IsEarly subscribing = Unit
IsEarly waiting = Unit
IsEarly fetching = ⊥
IsEarly (returned (found s)) = ⊥
IsEarly (returned timed_out) = Unit
IsEarly (returned query_failed) = Unit

abbrev KeepsRow : Effect → Type 0
KeepsRow (end_execution s m o) = ⊥
KeepsRow (publish e) = Unit
KeepsRow (notify s m) = Unit
KeepsRow (start_step id) = Unit
KeepsRow (complete_step id o n) = Unit
KeepsRow (fail_step id m) = Unit
KeepsRow (skip_step id) = Unit
KeepsRow (sleep d) = Unit

-- The status of an execution that is over, with the update of its row taken or not.
abbrev pub IsFinal : Bool → Status → Type 0
IsFinal true s = IsTerminal s
IsFinal false s = s ≡ running

abbrev Returns : Bool → Phase → Type 0
Returns b (returned (found s)) = IsFinal b s
Returns b _ = Unit

-- Before the end of the execution no event that ends the loop is in the channel, and after that the row stays.
data Inv (w : Waiting) : Type 0 where
  early :
      (before : List Effect) (status : Status) (error : Text) (output : Object)
      → w.left ≡ before ++ ending status error output
      → All IsStepEffect before
      → IsTerminal status
      → w.row ≡ running
      → IsQuiet w.channel
      → IsEarly w.phase
      → Inv w
  late : IsFinal w.takes w.row → All KeepsRow w.left → Returns w.takes w.phase → Inv w

step_event_is_quiet : (e : Event) → e.type ≢ execution_status → ends_wait e ≡ false
step_event_is_quiet e other = go e.type other e.status
  where
    go :
        (t : EventType)
        → t ≢ execution_status
        → (s : Option Status) → ends_wait (record e { type = t; status = s }) ≡ false
    go execution_status n s = absurd (n refl)
    go step_status n s = refl
    go step_log n s = refl

push-IsQuiet :
    (e : Event) (c : Option (List Event)) → ends_wait e ≡ false → IsQuiet c → IsQuiet (push e c)
push-IsQuiet e none h q = tt
push-IsQuiet e (some buffer) h q = go (ltb (length buffer) capacity)
  where
    go : (b : Bool) → All (λ e. ends_wait e ≡ false) (if b then buffer ++ e ∷ [] else buffer)
    go true = All-append (λ e. ends_wait e ≡ false) buffer (e ∷ []) q (h, tt)
    go false = q

terminal_iff : (s : Status) → is_terminal s ≡ true → IsTerminal s
terminal_iff completed h = inl refl
terminal_iff failed h = inr (inl refl)
terminal_iff cancelled h = inr (inr refl)
terminal_iff pending h = absurd (cc)
terminal_iff running h = absurd (cc)
terminal_iff skipped h = absurd (cc)

early-Returns : (b : Bool) → (p : Phase) → IsEarly p → Returns b p
early-Returns b checking h = tt
early-Returns b subscribing h = tt
early-Returns b waiting h = tt
early-Returns b fetching h = absurd h
early-Returns b (returned (found s)) h = absurd h
early-Returns b (returned timed_out) h = tt
early-Returns b (returned query_failed) h = tt

late_effect :
    (w : Waiting) (e : Effect) (l : List Effect)
    → IsFinal w.takes w.row
    → All KeepsRow (e ∷ l)
    → Returns w.takes w.phase
    → Inv (do_effect e (record w { left = l }))
late_effect w (end_execution s m o) l t k r = absurd k.0
late_effect w (publish e) l t k r = late t k.1 r
late_effect w (notify s m) l t k r = late t k.1 r
late_effect w (start_step id) l t k r = late t k.1 r
late_effect w (complete_step id o n) l t k r = late t k.1 r
late_effect w (fail_step id m) l t k r = late t k.1 r
late_effect w (skip_step id) l t k r = late t k.1 r
late_effect w (sleep d) l t k r = late t k.1 r

module _ (status : Status) (error : Text) (output : Object) (terminal : IsTerminal status) where
  -- The update of the row, taken or not.
  write-IsFinal : (b : Bool) (r : Status) → r ≡ running → IsFinal b (if b then status else r)
  write-IsFinal true r is = terminal
  write-IsFinal false r is = is

  -- An effect of a step.
  step_effect :
      (w : Waiting) (e : Effect) (l before : List Effect)
      → IsStepEffect e
      → l ≡ before ++ ending status error output
      → All IsStepEffect before
      → w.row ≡ running
      → IsQuiet w.channel
      → IsEarly w.phase
      → Inv (do_effect e (record w { left = l }))
  step_effect w (end_execution s m o) l before mine is own row quiet phase = absurd mine
  step_effect w (notify s m) l before mine is own row quiet phase = absurd mine
  step_effect w (publish e) l before mine is own row quiet phase =
      early before status error output is own terminal row
        (push-IsQuiet e w.channel (step_event_is_quiet e mine) quiet) phase
  step_effect w (start_step id) l before mine is own row quiet phase =
      early before status error output is own terminal row quiet phase
  step_effect w (complete_step id o n) l before mine is own row quiet phase =
      early before status error output is own terminal row quiet phase
  step_effect w (fail_step id m) l before mine is own row quiet phase =
      early before status error output is own terminal row quiet phase
  step_effect w (skip_step id) l before mine is own row quiet phase =
      early before status error output is own terminal row quiet phase
  step_effect w (sleep d) l before mine is own row quiet phase =
      early before status error output is own terminal row quiet phase

  early_effect :
      (w : Waiting) (e : Effect) (l before : List Effect)
      → e ∷ l ≡ before ++ ending status error output
      → All IsStepEffect before
      → w.row ≡ running
      → IsQuiet w.channel
      → IsEarly w.phase
      → Inv (do_effect e (record w { left = l }))
  early_effect w e l [] is own row quiet phase =
      subst (λ x. Inv (do_effect x (record w { left = l }))) (sym (head-eq_of_cons-eq is))
        (subst (λ m. Inv (record w { row = if w.takes then status else w.row; left = m }))
          (sym (tail-eq_of_cons-eq is))
          (late (write-IsFinal w.takes w.row row) (tt, (tt, tt))
            (early-Returns w.takes w.phase phase)))
  early_effect w e l (b ∷ before) is own row quiet phase =
      step_effect w e l before (subst IsStepEffect (sym (head-eq_of_cons-eq is)) own.0)
        (tail-eq_of_cons-eq is) own.1 row quiet phase

executes-Inv :
    (w : Waiting) (e : Effect) (l : List Effect)
    → w.left ≡ e ∷ l
    → Inv w
    → Inv (do_effect e (record w { left = l }))
executes-Inv w e l is (late terminal keeps ret) =
    late_effect w e l terminal (subst (All KeepsRow) is keeps) ret
executes-Inv w e l is (early before status error output split own terminal row quiet phase) =
    early_effect status error output terminal w e l before (sym is ∙ split) own row quiet phase

head_quiet :
    (c : Option (List Event)) (e : Event) (rest : List Event)
    → c ≡ some (e ∷ rest)
    → IsQuiet c
    → (ends_wait e ≡ false) × All (λ e. ends_wait e ≡ false) rest
head_quiet c e rest is quiet = subst IsQuiet is quiet

running_is_not : (s : Status) → s ≡ running → is_terminal s ≡ true → ⊥
running_is_not s e t = false≢true (sym (ap (λ x. is_terminal x) e) ∙ t)

module _ (w : Waiting) where
  -- A change of the call's own part.
  moved :
      (c : Option (List Event)) (p : Phase)
      → (IsQuiet w.channel → IsEarly w.phase → w.row ≡ running → IsQuiet c × IsEarly p)
      → (IsFinal w.takes w.row → Returns w.takes w.phase → Returns w.takes p)
      → Inv w
      → Inv (record w { channel = c; phase = p })
  moved c p f g (late terminal keeps ret) = late terminal keeps (g terminal ret)
  moved c p f g (early before status error output split own terminal row quiet phase) =
      early before status error output split own terminal row (f quiet phase row).0
        (f quiet phase row).1

  Step-Inv : (u : Waiting) → Step w u → Inv w → Inv u
  Step-Inv u (executes e l is to) h = subst Inv (sym to) (executes-Inv w e l is h)
  Step-Inv u (finds_ended p t to) h = subst Inv (sym to) (
      moved none (returned (found w.row)) (λ q e r. absurd (running_is_not w.row r t))
        (λ terminal ret. terminal) h)
  Step-Inv u (finds_running p t to) h =
      subst Inv (sym to) (moved w.channel subscribing (λ q e r. (q, tt)) (λ terminal ret. tt) h)
  Step-Inv u (check_fails p to) h =
      subst Inv (sym to) (moved w.channel subscribing (λ q e r. (q, tt)) (λ terminal ret. tt) h)
  Step-Inv u (subscribes p to) h =
      subst Inv (sym to) (moved (some []) waiting (λ q e r. (tt, tt)) (λ terminal ret. tt) h)
  Step-Inv u (receives_end e rest p c ends to) h = subst Inv (sym to) (
      moved (some rest) fetching
        (λ q x r. absurd (false≢true (sym (head_quiet w.channel e rest c q).0 ∙ ends)))
        (λ terminal ret. tt) h)
  Step-Inv u (receives_other e rest p c other to) h = subst Inv (sym to) (
      moved (some rest) w.phase (λ q x r. ((head_quiet w.channel e rest c q).1, x))
        (λ terminal ret. ret) h)
  Step-Inv u (times_out p to) h =
      subst Inv (sym to)
        (moved none (returned timed_out) (λ q e r. (tt, tt)) (λ terminal ret. tt) h)
  Step-Inv u (fetches p to) h = subst Inv (sym to) (
      moved none (returned (found w.row)) (λ q e r. absurd (subst IsEarly p e))
        (λ terminal ret. terminal) h)
  Step-Inv u (fetch_fails p to) h =
      subst Inv (sym to)
        (moved none (returned query_failed) (λ q e r. (tt, tt)) (λ terminal ret. tt) h)

Reach-Inv : (w u : Waiting) → Inv w → Reach w u → Inv u
Reach-Inv w u h here = h
Reach-Inv w u h (next {u = t} r s) = Step-Inv t u s (Reach-Inv w t h r)

answer_of : (u : Waiting) (s : Status) → Inv u → u.phase ≡ returned (found s) → IsFinal u.takes s
answer_of u s (late terminal keeps ret) is = subst (Returns u.takes) is ret
answer_of u s (early before status error output split own terminal row quiet phase) is =
    absurd (subst IsEarly is phase)

-- However the steps of WaitForCompletion and those of the execution's goroutine follow one another,
-- where it begins before the goroutine has done anything: when it returns an execution, the status
-- that it returns is completed, failed or cancelled, where the database takes the update that ends the
-- row, and `running` where the database does not, an error that the program drops.
pub Reach-IsFinal :
    (e : Setting) (wf : Workflow) (input : Object) (effects : List Effect)
    → execute_dag e wf input ≡ some effects
    → (takes : Bool) (u : Waiting) (s : Status) → Reach (start takes effects) u
    → u.phase ≡ returned (found s)
    → IsFinal takes s
Reach-IsFinal e wf input effects is takes u s r a =
    let (made, ran, ended) = execute_dag-Ended e wf input in
    let same : made ≡ effects = ap (λ o. elim o [ some l ↦ l | none ↦ [] ]) (sym ran ∙ is) in
    subst (λ b. IsFinal b s) (Reach-takes (start takes effects) u r)
      (answer_of u s
        (Reach-Inv (start takes effects) u
          (early ended.before ended.status ended.error ended.output (sym same ∙ ended.split)
            ended.own ended.terminal refl tt tt)
          r)
        a)
