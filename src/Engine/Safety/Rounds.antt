-- ===== src/Engine/Safety/Rounds.antt =====
-- The loop over the waves: no step starts twice, and none before what it depends on is over.
use react_go_workflow.Prelude.{
  In-append, ℕ, zero, suc, ◌≡◌, refl, sym, ap, inl, inr, pos, ℤ, is_positive, Bool, true, false,
  ◌||◌, not, Option, none, some, List, [], ◌∷◌, ◌++◌, map, arith, Bool-cases, subst, In,
  In-append_left, In-append_right, All, All-at, All-of, count_if_zero,
}
use react_go_workflow.Value.{Object}
use react_go_workflow.Engine.Types.{Uuid, Step, Edge, Registry}
use react_go_workflow.Engine.Attempts.Laws.{IsStepEffect, All-append}
use react_go_workflow.Engine.Graph.{Platform, Graph, downstream}
use react_go_workflow.Engine.Graph.Balance.{times}
use react_go_workflow.Engine.Skip.{Run, emit}
use react_go_workflow.Engine.Trace.{
  finished, started, finished-append, started-append, Distinct, Distinct-append, IsOrdered,
  IsOrdered-append, IsOrdered-early, IsOrdered-idle,
}
use react_go_workflow.Engine.Dag.{
  StepOutcome, ready, mark_wave, wave_effects, execute_wave, process_results, run_wave,
}
use react_go_workflow.Engine.Loop.Rule.{WavesRule}
use react_go_workflow.Engine.Safety.Settled.{has_output, settled, unsettled, SettledIsDone}
use react_go_workflow.Engine.Safety.Owed.{Owes}
use react_go_workflow.Engine.Safety.Grow.{Grows-started}
use react_go_workflow.Engine.Safety.Pending.{InFlight, Shown, Pending, process_results-Sound}
use react_go_workflow.Engine.Dag.Total.{process_results-KeepsDone}
use react_go_workflow.Engine.Safety.Results.{Kept}
use react_go_workflow.Engine.Safety.Wave.{
  ids_of, Ran, execute_wave-Ran, execute_wave-In, execute_wave-Distinct, started-wave,
  finished-wave, IsStepEffect-wave, mark_wave-Marked, ready-Distinct, ready-is_ready,
}

-- All that a step depends on is over, if it is one of those that `Q` picks out.
abbrev pub DepsOver : Graph → (Uuid → Type 0) → Uuid → List Uuid → Type 0
DepsOver g Q id over = Q id → All (λ d. In d over) (g.normal_deps id)

DepsOver-gains :
    (g : Graph) (Q : Uuid → Type 0) (id : Uuid) (over more : List Uuid)
    → DepsOver g Q id over
    → DepsOver g Q id (over ++ more)
DepsOver-gains g Q id over more h q =
    All-of _ (g.normal_deps id)
      (λ d i. In-append_left d over more (All-at _ (g.normal_deps id) (h q) d i))

-- What holds at the head of the loop.
pub record Safe (g : Graph) (Q : Uuid → Type 0) (r : Run) : Type 0 where
  pub owes : Owes g Q [] r
  pub settled_is_done : SettledIsDone r
  pub shown : Shown r
  pub known : (j : Uuid) → In j (started r.trace) → r.done j ≡ true
  pub once : Distinct (started r.trace)
  pub ordered : IsOrdered (DepsOver g Q) [] r.trace
  pub own : All IsStepEffect r.trace

not_positive : (z : ℤ) (n : ℕ) → z ≡ pos n → is_positive z ≡ false → n ≡ 0
not_positive z zero e h = refl
not_positive z (suc n) e h = cc

unsettled_parts :
    (b : Bool) (o : Option Object) → (b || has_output o) ≡ false → (b ≡ false) × (o ≡ none)
unsettled_parts false none e = (refl, refl)
unsettled_parts false (some o) e = absurd cc
unsettled_parts true o e = absurd cc

module _ (p : Platform) (registry : Registry) (steps : List Step) (execs : List Uuid) (g : Graph)
    (Q : Uuid → Type 0)
    (agree : (s t : Uuid) → times t (downstream g s) ≡ times s (g.normal_deps t))
    (apart : (s : Uuid) (e : Edge) → In e (g.error_edges s) → Q e.target_step_id → ⊥)
    (unique : Distinct (map (λ s. s.id) steps)) where
  -- A ready step has all its dependencies behind it.
  ready-DepsOver :
      (r : Run)
      → Safe g Q r
      → (id : Uuid) → In id (ready steps r)
      → DepsOver g Q id (finished r.trace)
  ready-DepsOver r h id i q =
      let (new, low) = All-at _ (ready steps r) (ready-is_ready steps r) id i in
      let none_left : unsettled g r id ≡ 0 =
        not_positive (r.in_degree id) _ (ground (arith, h.owes id q new)) low in
      All-of _ (g.normal_deps id) (λ d j.
        h.shown d
          (ground (arith, count_if_zero (λ s. not (settled r s)) d (g.normal_deps id) j none_left)))

  module _ (r : Run) (h : Safe g Q r) where
    abbrev wave : List Uuid
    wave = ready steps r

    abbrev results : List StepOutcome
    results = execute_wave p registry steps r.context wave

    abbrev marked : Uuid → Bool
    marked = (mark_wave wave r).done

    -- The run when all the steps of the wave have run.
    abbrev ran : Run
    ran = record r { done = marked; trace = r.trace ++ wave_effects results }

    ran-same : emit (wave_effects results) (mark_wave wave r) ≡ ran
    ran-same = ap (emit (wave_effects results)) (mark_wave-Marked wave r).same

    All-Ran : All Ran results
    All-Ran = execute_wave-Ran p registry steps r.context wave

    In-wave : (j : Uuid) → In j (started (wave_effects results)) → In j wave
    In-wave j i =
        execute_wave-In p registry steps r.context wave j
          (rw (sym (started-wave results All-Ran)) i)

    new : (j : Uuid) → In j wave → r.done j ≡ false
    new j i = (All-at _ wave (ready-is_ready steps r) j i).0

    open_yet : (id : Uuid) → In id wave → settled r id ≡ false
    open_yet id i = elim (Bool-cases (settled r id)) [
      | inl over ↦ absurd (ground (arith, h.settled_is_done id over, new id i))
      | inr yet ↦ yet
    ]

    ran-Pending : All (Pending ran) results
    ran-Pending = All-of (Pending ran) results (λ (id, o) i. (
      flight id (execute_wave-In p registry steps r.context wave id (In-ids id o results i)),
      λ output is. rw (finished-append r.trace (wave_effects results)) (
          In-append_right id (finished r.trace) _
            (All-at _ results (finished-wave results All-Ran) (id, o) i output is)),
    ))
      where
        In-ids : (id : Uuid) (o : _) (l : List StepOutcome) → In (id, o) l → In id (ids_of l)
        In-ids id o [] i = i
        In-ids id o (x ∷ l) (inl e) = inl (ap (λ y. y.0) e)
        In-ids id o (x ∷ l) (inr i) = inr (In-ids id o l i)

        flight : (id : Uuid) → In id wave → InFlight ran id
        flight id i = record {
          done = (mark_wave-Marked wave r).marks id i;
          skipped = (unsettled_parts (r.skipped id) (r.outputs id) (open_yet id i)).0;
          output = (unsettled_parts (r.skipped id) (r.outputs id) (open_yet id i)).1;
        }

    started-ran : started ran.trace ≡ started r.trace ++ started (wave_effects results)
    started-ran = started-append r.trace (wave_effects results)

    -- The starts of the wave are new.
    ran-once : Distinct (started ran.trace)
    ran-once = rw started-ran (
        Distinct-append (started r.trace) (started (wave_effects results)) h.once
          (rw (started-wave results All-Ran)
            (execute_wave-Distinct p registry steps r.context wave (ready-Distinct steps r unique)))
          (λ j i k. ground (arith, h.known j i, new j (In-wave j k))))

    ran-known : (j : Uuid) → In j (started ran.trace) → marked j ≡ true
    ran-known j i = elim (In-append j (started r.trace) _ (rw started-ran at i)) [
      | inl before ↦ (mark_wave-Marked wave r).keeps j (h.known j before)
      | inr now ↦ (mark_wave-Marked wave r).marks j (In-wave j now)
    ]

    ran-IsOrdered : IsOrdered (DepsOver g Q) [] ran.trace
    ran-IsOrdered = IsOrdered-append (DepsOver g Q) [] r.trace (wave_effects results) h.ordered (
        IsOrdered-early (DepsOver g Q) (DepsOver-gains g Q) (finished r.trace)
          (wave_effects results) (λ id i. ready-DepsOver r h id (In-wave id i)))

    ran-Kept : Kept p steps execs g Q agree apart [] ran
    ran-Kept = (
      λ t q still. h.owes t q (was_open t still),
      λ j e. (mark_wave-Marked wave r).keeps j (h.settled_is_done j e),
    )
      where
        was_open : (t : Uuid) → marked t ≡ false → r.done t ≡ false
        was_open t still = elim (Bool-cases (r.done t)) [
          | inl done ↦ absurd (ground (arith, still, (mark_wave-Marked wave r).keeps t done))
          | inr yet ↦ yet
        ]

    ran-Shown : Shown ran
    ran-Shown j e =
        rw (finished-append r.trace (wave_effects results))
          (In-append_left j (finished r.trace) _ (h.shown j e))

    run_wave-Safe :
        (fuel : ℕ) (t : Run) → run_wave p registry steps execs g fuel wave r ≡ some t → Safe g Q t
    unfolding run_wave
    run_wave-Safe fuel t e =
        let went : process_results p steps execs g fuel results ran ≡ some t =
          subst (λ u. process_results p steps execs g fuel results u ≡ some t) ran-same e in
        let sound =
          process_results-Sound p steps execs g Q agree apart fuel results ran t
            (execute_wave-Distinct p registry steps r.context wave (ready-Distinct steps r unique))
            ran-Pending ran-Kept ran-Shown went in
        let same = Grows-started ran t sound.grows in
        record {
          owes = sound.kept.0;
          settled_is_done = sound.kept.1;
          shown = sound.shown;
          known = λ j i.
              process_results-KeepsDone p steps execs g fuel results ran t went j
                (ran-known j (rw (sym same) i));
          once = rw same ran-once;
          ordered = rw sound.grows.trace (
              IsOrdered-append (DepsOver g Q) [] ran.trace sound.grows.added ran-IsOrdered
                (IsOrdered-idle (DepsOver g Q) _ sound.grows.added sound.grows.quiet.idle));
          own = rw sound.grows.trace (
              All-append IsStepEffect ran.trace sound.grows.added
                (All-append IsStepEffect r.trace (wave_effects results) h.own
                  (IsStepEffect-wave results All-Ran))
                sound.grows.quiet.own);
        }

  pub Safe-rule : (fuel : ℕ) → WavesRule p registry steps execs g (Safe g Q) fuel
  Safe-rule fuel = record {
    wave = λ r t h e. run_wave-Safe r h fuel t e;
    interrupted = λ e r h. record {
      owes = h.owes;
      settled_is_done = h.settled_is_done;
      shown = h.shown;
      known = h.known;
      once = h.once;
      ordered = h.ordered;
      own = h.own;
    };
  }
