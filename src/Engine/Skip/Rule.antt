-- ===== src/Engine/Skip/Rule.antt =====
-- Proof rules for skipBranch: a relation that every change keeps, and that the recursion ends.
use react_go_workflow.Prelude.{
  ℕ, zero, suc, ◌≡◌, inl, inr, true, false, ◌||◌, Option, some, List, [], ◌∷◌, arith, Bool-cases,
  then_some, is_positive,
}
use react_go_workflow.Engine.Types.{Uuid, Step}
use react_go_workflow.Engine.Graph.{downstream, Graph}
use react_go_workflow.Engine.Skip.{Run, decrement, each, mark_skipped, skip_branch}

-- A relation between runs that is kept by whatever it follows.
pub record IsPreorder (R : Run → Run → Type 0) : Type 0 where
  pub same : (r : Run) → R r r
  pub and_then : (r s t : Run) → R r s → R s t → R r t

pub each_ind :
    (R : Run → Run → Type 0)
    → IsPreorder R
    → (go : Uuid → Run → Option Run) → ((id : Uuid) (r s : Run) → go id r ≡ some s → R r s)
    → (ids : List Uuid) (r s : Run) → each go ids r ≡ some s
    → R r s
unfolding each
each_ind R o go step [] r s e = ground (arith, o.same r)
each_ind R o go step (id ∷ ids) r s e =
    let (r', went, rest) = then_some (go id r) (each go ids) s e in
    o.and_then r r' s (step id r r' went) (each_ind R o go step ids r' s rest)

module _ (steps : List Step) (execs : List Uuid) (g : Graph) where
  -- The three ways through skipBranch.
  pub data Skipped (fuel : ℕ) (id : Uuid) (r s : Run) : Type 0 where
    stays : (r.done id || r.skipped id) ≡ true → s ≡ r → Skipped fuel id r s
    waits :
        r.done id ≡ false
        → is_positive ((decrement id r).in_degree id) ≡ true
        → s ≡ decrement id r
        → Skipped fuel id r s
    passes_on :
        r.done id ≡ false
        → is_positive ((decrement id r).in_degree id) ≡ false
        → each
            (skip_branch steps execs g fuel)
            (downstream g id)
            (mark_skipped steps execs g id (decrement id r))
          ≡ some s
        → Skipped fuel id r s

  pub skip_branch_cases :
      (fuel : ℕ) (id : Uuid) (r s : Run)
      → skip_branch steps execs g (suc fuel) id r ≡ some s
      → Skipped fuel id r s
  unfolding skip_branch
  skip_branch_cases fuel id r s e = elim (Bool-cases (r.done id || r.skipped id)) [
    | inl old ↦ stays old (ground arith)
    | inr new ↦ elim (Bool-cases (is_positive ((decrement id r).in_degree id))) [
      | inl more ↦ waits (ground arith) more (ground arith)
      | inr last ↦ passes_on (ground arith) last (ground arith)
    ]
  ]

  -- skipBranch makes two changes, and only to steps that are not done.
  pub skip_branch_ind :
      (R : Run → Run → Type 0)
      → IsPreorder R
      → ((id : Uuid) (r : Run) → r.done id ≡ false → R r (decrement id r))
      → ((id : Uuid) (r : Run) → r.done id ≡ false → R r (mark_skipped steps execs g id r))
      → (fuel : ℕ) (id : Uuid) (r s : Run) → skip_branch steps execs g fuel id r ≡ some s
      → R r s
  skip_branch_ind R o lower mark zero id r s e = absurd (unfold skip_branch in cc)
  skip_branch_ind R o lower mark (suc fuel) id r s e =
      go (skip_branch_ind R o lower mark fuel) (skip_branch_cases fuel id r s e)
    where
      go :
          ((j : Uuid) (t u : Run) → skip_branch steps execs g fuel j t ≡ some u → R t u)
          → Skipped fuel id r s
          → R r s
      go below (stays old same) = rw same (o.same r)
      go below (waits new more low) = rw low (lower id r new)
      go below (passes_on new last rest) = o.and_then r _ s (lower id r new) (
          o.and_then _ _ s (mark id (decrement id r) new)
            (each_ind R o (skip_branch steps execs g fuel) below (downstream g id) _ s rest))
