-- ===== src/Engine/Safety/Pending.antt =====
-- The results of a wave in turn: what is in flight, and what the trace shows of what has settled.
use react_go_workflow.Prelude.{
  ℕ, ◌≡◌, refl, sym, inl, inr, true, false, none, some, List, [], ◌∷◌, map, arith, Bool-cases,
  update, ◌==◌, ==_iff, then_some, subst, In, In-append_left, In-append_right, All,
}
use mathlib.Core.Option.{some_inj}
use mathlib.Core.List.{append-nil}
use react_go_workflow.Value.{Object}
use react_go_workflow.Engine.Errors.{ok}
use react_go_workflow.Engine.Types.{Uuid, Step, Edge}
use react_go_workflow.Engine.Attempts.{Outcome}
use react_go_workflow.Engine.Graph.{Platform, Graph, downstream}
use react_go_workflow.Engine.Graph.Balance.{times}
use react_go_workflow.Engine.Skip.{Run, mark_skipped, skip_effects}
use react_go_workflow.Engine.Trace.{finished, finished-append, Distinct}
use react_go_workflow.Engine.Dag.{StepOutcome, process_result, process_results}
use react_go_workflow.Engine.Dag.Rule.{
  IsKept, IsKept-IsFollowed, Records, process_result_ind, process_failure_ind, process_success_ind,
  Processed, unknown, failed_with, succeeded, process_result_cases,
}
use react_go_workflow.Engine.Safety.Settled.{settled}
use react_go_workflow.Engine.Safety.Grow.{
  Grows, Grows-preorder, Grows-IsKept, Grows-finished, In-skip_effects,
}
use react_go_workflow.Engine.Safety.Results.{
  Kept, step_by_id-id, process_failure-Kept, process_success-Kept,
}

-- A step of the wave whose result is not processed yet.
pub record InFlight (r : Run) (id : Uuid) : Type 0 where
  pub done : r.done id ≡ true
  pub skipped : r.skipped id ≡ false
  pub output : r.outputs id ≡ none

abbrev Others : Uuid → Run → Run → Type 0
Others id r t = (j : Uuid) → (id == j) ≡ false → InFlight r j → InFlight t j

-- What has settled is over in the trace.
abbrev pub Shown : Run → Type 0
Shown r = (j : Uuid) → settled r j ≡ true → In j (finished r.trace)

-- The trace goes on, and shows what settles, in the runs that come after `base`.
abbrev Shows : Run → Run → Run → Type 0
Shows base r t = Grows r t × (Grows base r → Shown r → Shown t)

abbrev pub Pending : Run → StepOutcome → Type 0
Pending r (id, o) =
    InFlight r id × ((output : Object) → o.result ≡ ok output → In id (finished r.trace))

module _ (p : Platform) (steps : List Step) (execs : List Uuid) (g : Graph) where
  Others-IsKept : (id : Uuid) → IsKept p steps execs g (Others id)
  Others-IsKept id = record {
    preorder = record { same = λ r j o f. f; and_then = λ r s t a b j o f. b j o (a j o f) };
    lowered = λ i r j o f. record { done = f.done; skipped = f.skipped; output = f.output };
    marked = λ i r new j o f. record {
      done = ground (arith, f.done);
      skipped = ground (arith, f.done, f.skipped);
      output = f.output;
    };
    readied = λ i c r j o f. record { done = f.done; skipped = f.skipped; output = f.output };
    failed = λ e r j o f. record { done = f.done; skipped = f.skipped; output = f.output };
  }

  Others-Records : (s : Step) → Records p steps execs g (Others s.id) s
  Others-Records s output r j o f = record {
    done = f.done;
    skipped = f.skipped;
    output = rw (o, update) f.output;
  }

  Others-result :
      (fuel : ℕ) (id : Uuid) (o : Outcome) (r t : Run)
      → process_result p steps execs g fuel (id, o) r ≡ some t
      → Others id r t
  Others-result fuel id o = λ r t.
      process_result_ind p steps execs g (Others id) (Others-IsKept id) fuel id o r t (λ s found.
        subst (λ i. Records p steps execs g (Others i) s) (step_by_id-id steps id s found)
          (Others-Records s))

  Shown-marked : (id : Uuid) (r : Run) → Shown r → Shown (mark_skipped steps execs g id r)
  Shown-marked id r h j e = rw (finished-append r.trace _) (elim (Bool-cases (id == j)) [
    | inl same ↦ In-append_right j (finished r.trace) _ (
        subst (λ i. In i (finished (skip_effects steps execs g id))) ((==_iff id j).0 same)
          (In-skip_effects p steps execs g id))
    | inr other ↦ In-append_left j (finished r.trace) _ (h j (ground arith))
  ])

  -- A relation of the runs after `base`, whatever else it is kept by.
  Shows-IsKept : (base : Run) → IsKept p steps execs g (Shows base)
  Shows-IsKept base =
      let grows = Grows-IsKept p steps execs g in
      record {
        preorder = record {
          same = λ r. (grows.preorder.same r, λ _ h. h);
          and_then = λ r s t a b. (
            Grows-preorder.and_then r s t a.0 b.0,
            λ from h. b.1 (Grows-preorder.and_then base r s from a.0) (a.1 from h),
          );
        };
        lowered = λ i r. (grows.lowered i r, λ _ h. h);
        marked = λ i r new. (grows.marked i r new, λ _. Shown-marked i r);
        readied = λ i c r. (grows.readied i c r, λ _ h. h);
        failed = λ e r. (grows.failed e r, λ _ h. h);
      }

  Shows-Records :
      (base : Run) (s : Step)
      → In s.id (finished base.trace)
      → Records p steps execs g (Shows base) s
  Shows-Records base s i output r = (
    record {
      added = [];
      trace = sym (append-nil r.trace);
      quiet = record { idle = refl; own = tt };
    },
    λ from h j e. elim (Bool-cases (s.id == j)) [
      | inl same ↦
          subst (λ k. In k (finished r.trace)) ((==_iff s.id j).0 same)
            (Grows-finished base r from s.id i)
      | inr other ↦ h j (rw (other, update) at e)
    ],
  )

  module _ (Q : Uuid → Type 0)
      (agree : (s t : Uuid) → times t (downstream g s) ≡ times s (g.normal_deps t))
      (apart : (s : Uuid) (e : Edge) → In e (g.error_edges s) → Q e.target_step_id → ⊥) where
    -- What the loop over the results keeps.
    pub record Sound (r t : Run) : Type 0 where
      pub kept : Kept p steps execs g Q agree apart [] t
      pub shown : Shown t
      pub grows : Grows r t

    process_result-Sound :
        (fuel : ℕ) (id : Uuid) (o : Outcome) (r t : Run)
        → Pending r (id, o)
        → Kept p steps execs g Q agree apart [] r
        → Shown r
        → process_result p steps execs g fuel (id, o) r ≡ some t
        → Sound r t
    process_result-Sound fuel id o r t (f, over) kept shown e =
        go (process_result_cases p steps execs g fuel id o r t e)
      where
        start : Grows r r
        start = Grows-preorder.same r

        go : Processed p steps execs g fuel id o r t → Sound r t
        go (unknown missing same) =
            subst (Sound r) (sym same) (record { kept = kept; shown = shown; grows = start })
        go (failed_with s x found is same) =
            let (grows, shows) =
              process_failure_ind p steps execs g (Shows r) (Shows-IsKept r) s x r in
            subst (Sound r) (sym same) (record {
              kept = process_failure-Kept p steps execs g Q agree apart s x r kept;
              shown = shows start shown;
              grows = grows;
            })
        go (succeeded s output found is went) =
            let same = step_by_id-id steps id s found in
            let (grows, shows) =
              process_success_ind p steps execs g (Shows r)
                (IsKept-IsFollowed p steps execs g (Shows r) (Shows-IsKept r)) fuel s
                (Shows-Records r s
                  (subst (λ i. In i (finished r.trace)) (sym same) (over output is)))
                output r t went in
            record {
              kept =
                  process_success-Kept p steps execs g Q agree apart fuel s output r t
                    (rw same f.done) (rw (same, f.skipped, f.output) refl) kept went;
              shown = shows start shown;
              grows = grows;
            }

    All-Pending :
        (fuel : ℕ) (id : Uuid) (o : Outcome) (r t : Run)
        → process_result p steps execs g fuel (id, o) r ≡ some t
        → Grows r t
        → (l : List StepOutcome) → (In id (map (λ x. x.0) l) → ⊥)
        → All (Pending r) l
        → All (Pending t) l
    All-Pending fuel id o r t went grows [] apart' h = tt
    All-Pending fuel id o r t went grows ((j, x) ∷ l) apart' ((f, over), h) = (
      (
        Others-result fuel id o r t went j
            (elim (Bool-cases (id == j)) [
              | inl same ↦ absurd (apart' (inl (sym ((==_iff id j).0 same))))
              | inr other ↦ other
            ])
            f,
        λ output is. Grows-finished r t grows j (over output is),
      ),
      All-Pending fuel id o r t went grows l (λ i. apart' (inr i)) h,
    )

    pub process_results-Sound :
        (fuel : ℕ) (l : List StepOutcome) (r t : Run)
        → Distinct (map (λ x. x.0) l)
        → All (Pending r) l
        → Kept p steps execs g Q agree apart [] r
        → Shown r
        → process_results p steps execs g fuel l r ≡ some t
        → Sound r t
    unfolding process_results
    process_results-Sound fuel [] r t d h kept shown e =
        subst (Sound r) (some_inj.0 e)
          (record { kept = kept; shown = shown; grows = Grows-preorder.same r })
    process_results-Sound fuel ((id, o) ∷ l) r t d h kept shown e =
        let (u, went, rest) =
          then_some (process_result p steps execs g fuel (id, o) r)
            (process_results p steps execs g fuel l) t e in
        let first = process_result-Sound fuel id o r u h.0 kept shown went in
        let later =
          process_results-Sound fuel l u t d.1
            (All-Pending fuel id o r u went first.grows l d.0 h.1) first.kept first.shown rest in
        record {
          kept = later.kept;
          shown = later.shown;
          grows = Grows-preorder.and_then r u t first.grows later.grows;
        }
