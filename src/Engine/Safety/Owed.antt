-- ===== src/Engine/Safety/Owed.antt =====
-- The in-degree of a step that is not done counts its dependencies that have not settled, and the
-- decrements that are still owed to it by steps that have.
use react_go_workflow.Prelude.{
  ℕ, zero, suc, ◌+◌, ◌≡◌, sym, inl, inr, ℤ, pos, pred_ℤ, false, not, Option, some, List, [], ◌∷◌,
  ◌++◌, arith, Bool-cases, count_if-append, ◌==◌, then_some, subst,
}
use mathlib.Core.Option.{some_inj}
use react_go_workflow.Engine.Types.{Uuid, Step}
use react_go_workflow.Engine.Graph.{Graph, downstream}
use react_go_workflow.Engine.Graph.Balance.{times}
use react_go_workflow.Engine.Skip.{Run, decrement, mark_skipped, each, skip_branch}
use react_go_workflow.Engine.Skip.Rule.{skip_branch_cases, Skipped, stays, waits, passes_on}
use react_go_workflow.Engine.Safety.Settled.{settled, unsettled, SettledIsDone, count_if-remove}

module _ (g : Graph) (Q : Uuid → Type 0) where
  -- What follows is said of the steps that `Q` picks out.
  abbrev pub Owes : List Uuid → Run → Type 0
  Owes owed r =
      (t : Uuid) → Q t → r.done t ≡ false → r.in_degree t ≡ pos (unsettled g r t + times t owed)

  pred-pos : (z : ℤ) (a b : ℕ) → z ≡ pos (a + suc b) → pred_ℤ z ≡ pos (a + b)
  pred-pos z a b e = ground arith

  pub Owes-decrement :
      (t : Uuid) (owed : List Uuid) (r : Run) → Owes (t ∷ owed) r → Owes owed (decrement t r)
  Owes-decrement t owed r h u q new = elim (Bool-cases (t == u)) [
    | inl same ↦
        ground (arith, h u q new, pred-pos (r.in_degree t) (unsettled g r u) (times u owed))
    | inr other ↦ ground (arith, h u q new)
  ]

  module _ (steps : List Step) (execs : List Uuid)
      (agree : (s t : Uuid) → times t (downstream g s) ≡ times s (g.normal_deps t)) where
    abbrev marked : Uuid → Run → Run
    marked = mark_skipped steps execs g

    SettledIsDone-marked : (id : Uuid) (r : Run) → SettledIsDone r → SettledIsDone (marked id r)
    SettledIsDone-marked id r sd j h = ground (arith, sd j)

    unsettled-marked :
        (id : Uuid) (r : Run)
        → SettledIsDone r
        → r.done id ≡ false
        → (u : Uuid) → unsettled g r u ≡ unsettled g (marked id r) u + times u (downstream g id)
    unsettled-marked id r sd new u = rw (agree id u) (
        count_if-remove (λ s. not (settled r s)) (λ s. not (settled (marked id r) s)) id
          (ground (arith, sd id)) (ground arith) (λ x other. ground arith) (g.normal_deps u))

    Owes-marked :
        (id : Uuid) (owed : List Uuid) (r : Run)
        → SettledIsDone r
        → r.done id ≡ false
        → Owes owed r
        → Owes (downstream g id ++ owed) (marked id r)
    Owes-marked id owed r sd new h u q still = ground (
      arith,
      h u q,
      unsettled-marked id r sd new u,
      count_if-append (λ j. j == u) (downstream g id) owed,
    )

    abbrev Kept : List Uuid → Run → Type 0
    Kept owed s = Owes owed s × SettledIsDone s

    each-Owes :
        (go : Uuid → Run → Option Run)
        → ((t : Uuid) (owed : List Uuid) (r s : Run)
            → SettledIsDone r
            → Owes (t ∷ owed) r
            → go t r ≡ some s
            → Kept owed s)
        → (ids owed : List Uuid) (r s : Run) → SettledIsDone r
        → Owes (ids ++ owed) r
        → each go ids r ≡ some s
        → Kept owed s
    unfolding each
    each-Owes go step [] owed r s sd h e = subst (Kept owed) (some_inj.0 e) (h, sd)
    each-Owes go step (id ∷ ids) owed r s sd h e =
        let (r', went, rest) = then_some (go id r) (each go ids) s e in
        let (h', sd') = step id (ids ++ owed) r r' sd h went in
        each-Owes go step ids owed r' s sd' h' rest

    -- skipBranch pays one decrement, and those that the steps which it skips owe.
    pub Owes-skip_branch :
        (fuel : ℕ) (t : Uuid) (owed : List Uuid) (r s : Run)
        → SettledIsDone r
        → Owes (t ∷ owed) r
        → skip_branch steps execs g fuel t r ≡ some s
        → Kept owed s
    Owes-skip_branch zero t owed r s sd h e = absurd (unfold skip_branch in cc)
    Owes-skip_branch (suc fuel) t owed r s sd h e =
        go (Owes-skip_branch fuel) (skip_branch_cases steps execs g fuel t r s e)
      where
        go :
            ((j : Uuid) (owed' : List Uuid) (u v : Run)
              → SettledIsDone u
              → Owes (j ∷ owed') u
              → skip_branch steps execs g fuel j u ≡ some v
              → Kept owed' v)
            → Skipped steps execs g fuel t r s
            → Kept owed s
        go below (stays old same) =
            subst (Kept owed) (sym same) ((λ u q new. ground (arith, h u q new, sd t)), sd)
        go below (waits new more low) = subst (Kept owed) (sym low) (Owes-decrement t owed r h, sd)
        go below (passes_on new last rest) =
            each-Owes (skip_branch steps execs g fuel) below (downstream g t) owed _ s
              (SettledIsDone-marked t (decrement t r) sd)
              (Owes-marked t owed (decrement t r) sd new (Owes-decrement t owed r h)) rest
