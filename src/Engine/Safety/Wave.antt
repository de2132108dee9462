-- ===== src/Engine/Safety/Wave.antt =====
-- A wave: which steps it starts, and that their results are in flight when it has run.
use react_go_workflow.Prelude.{
  ◌≡◌, refl, sym, inl, inr, true, false, is_positive, List, [], ◌∷◌, map, keep, arith, Bool-cases,
  Option-cases, update, ◌==◌, ==_iff, ◌⊎◌, subst, In, In-append_left, In-append_right, All,
}
use react_go_workflow.Value.{Object}
use react_go_workflow.Engine.Errors.{ok}
use react_go_workflow.Engine.Context.{ExecContext}
use react_go_workflow.Engine.Types.{Uuid, Step, Effect, start_step, Registry}
use react_go_workflow.Engine.Attempts.{execute_step}
use react_go_workflow.Engine.Attempts.Laws.{
  IsStepEffect, IsQuiet, execute_step-StepEffects, All-append,
}
use react_go_workflow.Engine.Graph.{Platform, step_by_id}
use react_go_workflow.Engine.Skip.{Run}
use react_go_workflow.Engine.Trace.{finished, started, finished-append, started-append, Distinct}
use react_go_workflow.Engine.Dag.{
  StepOutcome, is_ready, ready, mark_wave, wave_effects, execute_wave,
}
use react_go_workflow.Engine.Loop.Termination.{ready-In}
use react_go_workflow.Engine.Safety.Results.{step_by_id-id}

abbrev pub ids_of : List StepOutcome → List Uuid
ids_of l = map (λ x. x.0) l

-- The result of a step that ran: it started and, if it succeeded, it completed.
pub record Ran (x : StepOutcome) : Type 0 where
  pub rest : List Effect
  pub starts : x.1.effects ≡ start_step x.0 ∷ rest
  pub quiet : IsQuiet rest
  pub shown : (output : Object) → x.1.result ≡ ok output → In x.0 (finished rest)

module _ (p : Platform) (registry : Registry) (steps : List Step) (c : ExecContext) where
  abbrev results : List Uuid → List StepOutcome
  results ids = execute_wave p registry steps c ids

  pub execute_wave-Ran : (ids : List Uuid) → All Ran (results ids)
  unfolding execute_wave
  execute_wave-Ran [] = tt
  execute_wave-Ran (id ∷ ids) = elim (Option-cases (step_by_id steps id)) [
    | inl missing ↦ rw (missing, execute_wave) (execute_wave-Ran ids)
    | inr (s, found) ↦
        let h = execute_step-StepEffects p.format_float registry c s in
        let ran : Ran (s.id, execute_step p.format_float registry c s) = record {
          rest = h.rest;
          starts = h.starts;
          quiet = h.quiet;
          shown = h.shown;
        } in
        rw (found, execute_wave) (ran, execute_wave-Ran ids)
  ]

  pub execute_wave-In : (ids : List Uuid) (j : Uuid) → In j (ids_of (results ids)) → In j ids
  unfolding execute_wave
  execute_wave-In [] j i = i
  execute_wave-In (id ∷ ids) j i = elim (Option-cases (step_by_id steps id)) [
    | inl missing ↦ inr (execute_wave-In ids j (rw (missing, execute_wave) at i))
    | inr (s, found) ↦ elim (rw (found, execute_wave) at i) [
      | inl e ↦ inl (rw (sym (step_by_id-id steps id s found)) e)
      | inr k ↦ inr (execute_wave-In ids j k)
    ]
  ]

  pub execute_wave-Distinct : (ids : List Uuid) → Distinct ids → Distinct (ids_of (results ids))
  unfolding execute_wave
  execute_wave-Distinct [] d = tt
  execute_wave-Distinct (id ∷ ids) d = elim (Option-cases (step_by_id steps id)) [
    | inl missing ↦ rw (missing, execute_wave) (execute_wave-Distinct ids d.1)
    | inr (s, found) ↦
        rw (found, execute_wave)
          (
            (λ i. d.0 (
                execute_wave-In ids id
                  (subst (λ x. In x (ids_of (results ids))) (step_by_id-id steps id s found) i))),
            execute_wave-Distinct ids d.1,
          )
  ]

-- A wave starts the steps of its results, in order.
pub started-wave : (l : List StepOutcome) → All Ran l → started (wave_effects l) ≡ ids_of l
unfolding wave_effects
started-wave [] h = refl
started-wave ((id, o) ∷ l) (ran, h) =
    rw (started-append o.effects (wave_effects l), ran.starts, ran.quiet.idle, started-wave l h)
      refl

pub IsStepEffect-wave : (l : List StepOutcome) → All Ran l → All IsStepEffect (wave_effects l)
unfolding wave_effects
IsStepEffect-wave [] h = tt
IsStepEffect-wave ((id, o) ∷ l) (ran, h) =
    All-append IsStepEffect o.effects (wave_effects l) (rw ran.starts (tt, ran.quiet.own))
      (IsStepEffect-wave l h)

-- A step that succeeded is over once the wave has run.
pub finished-wave :
    (l : List StepOutcome)
    → All Ran l
    → All (λ x. (output : Object) → x.1.result ≡ ok output → In x.0 (finished (wave_effects l))) l
unfolding wave_effects
finished-wave l h = within l h (λ j i. i)
  where
    within :
        (k : List StepOutcome)
        → All Ran k
        → ((j : Uuid) → In j (finished (wave_effects k)) → In j (finished (wave_effects l)))
        → All
            (λ x. (output : Object) → x.1.result ≡ ok output → In x.0 (finished (wave_effects l)))
            k
    within [] a b = tt
    within ((id, o) ∷ k) (ran, a) b = (
      λ output is. b id (
          rw (finished-append o.effects (wave_effects k), ran.starts)
            (In-append_left id (finished ran.rest) (finished (wave_effects k))
              (ran.shown output is))),
      within k a (λ j i. b j (
          rw (finished-append o.effects (wave_effects k))
            (In-append_right j (finished o.effects) (finished (wave_effects k)) i))),
    )

-- Marking a wave changes which steps are done, and nothing else.
pub record Marked (ids : List Uuid) (r t : Run) : Type 0 where
  pub same : t ≡ record r { done = t.done }
  pub keeps : (j : Uuid) → r.done j ≡ true → t.done j ≡ true
  pub marks : (j : Uuid) → In j ids → t.done j ≡ true
  pub only : (j : Uuid) → t.done j ≡ true → (r.done j ≡ true) ⊎ In j ids

pub mark_wave-Marked : (ids : List Uuid) (r : Run) → Marked ids r (mark_wave ids r)
unfolding mark_wave
mark_wave-Marked [] r = record {
  same = refl;
  keeps = λ j h. h;
  marks = λ j i. absurd i;
  only = λ j h. inl h;
}
mark_wave-Marked (id ∷ ids) r =
    let h = mark_wave-Marked ids (record r { done = update r.done id true }) in
    record {
      same = h.same;
      keeps = λ j d. h.keeps j (ground arith);
      only = λ j d. elim (h.only j d) [
        | inl before ↦ elim (Bool-cases (id == j)) [
          | inl same ↦ inr (inl ((==_iff id j).0 same))
          | inr other ↦ inl (rw (other, update) at before)
        ]
        | inr later ↦ inr (inr later)
      ];
      marks = λ j i. elim i [ inl e ↦ h.keeps j (ground arith) | inr k ↦ h.marks j k ];
    }

-- The steps that are ready, in the order of the workflow, each once.
pub ready-Distinct :
    (steps : List Step) (r : Run) → Distinct (map (λ s. s.id) steps) → Distinct (ready steps r)
unfolding ready
ready-Distinct [] r d = tt
ready-Distinct (s ∷ steps) r d = elim (Bool-cases (is_ready r s)) [
  | inl yes' ↦ rw (yes', keep) (λ i. d.0 (ready-In steps r s.id i), ready-Distinct steps r d.1)
  | inr no' ↦ rw (no', keep) (ready-Distinct steps r d.1)
]

pub ready-is_ready :
    (steps : List Step) (r : Run)
    → All (λ id. (r.done id ≡ false) × (is_positive (r.in_degree id) ≡ false)) (ready steps r)
unfolding ready
ready-is_ready [] r = tt
ready-is_ready (s ∷ steps) r = elim (Bool-cases (is_ready r s)) [
  | inl yes' ↦ rw (yes', keep) ((ground arith, ground arith), ready-is_ready steps r)
  | inr no' ↦ rw (no', keep) (ready-is_ready steps r)
]
