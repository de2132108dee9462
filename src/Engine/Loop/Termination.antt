-- ===== src/Engine/Loop/Termination.antt =====
-- The loop of executeDAG ends: each wave marks a step that was not done.
use react_go_workflow.Prelude.{
  ℕ, zero, suc, ◌<◌, ◌≡◌, refl, inl, inr, true, false, not, Option, some, List, [], ◌∷◌, arith,
  Bool-cases, Option-cases, List-cases, update, All, In, keep, map, subst, count_if_lt,
}
use react_go_workflow.Engine.Types.{Uuid, Step, Registry}
use react_go_workflow.Engine.Graph.{downstream, Platform, Graph}
use react_go_workflow.Engine.Clock.{CtxErr}
use react_go_workflow.Engine.Skip.{Run, emit}
use react_go_workflow.Engine.Skip.Total.{KeepsDone, undone, undone_mono}
use react_go_workflow.Engine.Dag.{is_ready, ready, mark_wave, wave_effects, execute_wave, run_wave}
use react_go_workflow.Engine.Dag.Total.{process_results-KeepsDone, process_results_total}
use react_go_workflow.Engine.Loop.{Stop, waves, interruption}

pub mark_wave-KeepsDone : (ids : List Uuid) (r : Run) → KeepsDone r (mark_wave ids r)
unfolding mark_wave
mark_wave-KeepsDone [] r j h = h
mark_wave-KeepsDone (id ∷ ids) r j h = mark_wave-KeepsDone ids _ j (ground arith)

-- A ready step is one that is not done.
pub ready-undone : (steps : List Step) (r : Run) → All (λ id. r.done id ≡ false) (ready steps r)
unfolding ready
ready-undone [] r = tt
ready-undone (s ∷ steps) r = elim (Bool-cases (is_ready r s)) [
  | inl yes' ↦ rw (yes', keep) (ground arith, ready-undone steps r)
  | inr no' ↦ rw (no', keep) (ready-undone steps r)
]

pub ready-In :
    (steps : List Step) (r : Run) (id : Uuid)
    → In id (ready steps r)
    → In id (map (λ s. s.id) steps)
unfolding ready
ready-In [] r id i = i
ready-In (s ∷ steps) r id i = elim (Bool-cases (is_ready r s)) [
  | inl yes' ↦ go (ready-In steps r id) (rw (yes', keep) at i)
  | inr no' ↦ inr (ready-In steps r id (rw (no', keep) at i))
]
  where
    go :
        (In id (ready steps r) → In id (map (λ s. s.id) steps))
        → In id (s.id ∷ ready steps r)
        → In id (s.id ∷ map (λ s. s.id) steps)
    go later (inl e) = inl e
    go later (inr j) = inr (later j)

-- A wave that is not empty leaves fewer steps that are not done.
pub mark_wave-lt :
    (steps : List Step) (r : Run) (id : Uuid) (ids : List Uuid)
    → ready steps r ≡ id ∷ ids
    → undone (map (λ s. s.id) steps) (mark_wave (id ∷ ids) r) < undone (map (λ s. s.id) steps) r
mark_wave-lt steps r id ids e =
    count_if_lt (λ j. not ((mark_wave (id ∷ ids) r).done j)) (λ j. not (r.done j))
      (λ j h. ground (arith, mark_wave-KeepsDone (id ∷ ids) r j)) id (map (λ s. s.id) steps)
      (ready-In steps r id (rw e (inl refl))) (ground (arith, marked)) (ground (arith, fresh))
  where
    marked : (mark_wave (id ∷ ids) r).done id ≡ true
    marked =
        unfold mark_wave in
        mark_wave-KeepsDone ids (record r { done = update r.done id true }) id (ground arith)

    fresh : r.done id ≡ false
    fresh = (subst (All (λ j. r.done j ≡ false)) e (ready-undone steps r)).0

module _ (p : Platform) (registry : Registry) (steps : List Step) (execs : List Uuid) (g : Graph)
    (err_at : ℕ → Option CtxErr) (all : List Uuid)
    (closed : (id : Uuid) → All (λ j. In j all) (downstream g id)) where
  run_wave_total :
      (fuel : ℕ) (id : Uuid) (ids : List Uuid) (r : Run)
      → ready steps r ≡ id ∷ ids
      → undone all r < fuel
      → (t : Run) × (run_wave p registry steps execs g fuel (id ∷ ids) r ≡ some t)
        × KeepsDone r t
        × (undone (map (λ s. s.id) steps) t < undone (map (λ s. s.id) steps) r)
  unfolding run_wave
  run_wave_total fuel id ids r e b =
      let results = execute_wave p registry steps r.context (id ∷ ids) in
      let started = emit (wave_effects results) (mark_wave (id ∷ ids) r) in
      let marked : KeepsDone r started = mark_wave-KeepsDone (id ∷ ids) r in
      let (t, went) =
        process_results_total p steps execs g all closed fuel results started
          (omega (arith, undone_mono all r started marked)) in
      let keeps = process_results-KeepsDone p steps execs g fuel results started t went in
      (
        t,
        went,
        λ j h. keeps j (marked j h),
        omega (
          arith,
          undone_mono (map (λ s. s.id) steps) started t keeps,
          mark_wave-lt steps r id ids e,
        ),
      )

  -- With a round for each step that is not done, and one more, the loop comes to its end.
  pub waves_total :
      (n fuel k : ℕ) (r : Run)
      → undone (map (λ s. s.id) steps) r < n
      → undone all r < fuel
      → (stop : Stop) × (waves p registry steps execs g err_at n fuel k r ≡ some stop)
  unfolding waves
  waves_total zero fuel k r a b = absurd (omega arith)
  waves_total (suc n) fuel k r a b = elim (List-cases (ready steps r)) [
    | inl idle ↦ (record { run = r; reads = k }, rw (idle, waves))
    | inr (id, ids, e) ↦
        let (t, went, keeps, less) = run_wave_total fuel id ids r e b in
        elim (Option-cases (err_at k)) [
          | inl running ↦
              let (stop, rest) =
                waves_total n fuel (suc k) t (omega arith)
                  (omega (arith, undone_mono all r t keeps)) in
              (stop, rw (e, went, running, waves) rest)
          | inr (x, stopped) ↦ (
            record {
              run = record t { execution_err = some (interruption (err_at (suc k))) };
              reads = suc (suc k);
            },
            rw (e, went, stopped, waves),
          )
        ]
  ]
