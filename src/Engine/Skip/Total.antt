-- ===== src/Engine/Skip/Total.antt =====
-- skipBranch ends: each level of its recursion marks a step that was not done.
use react_go_workflow.Prelude.{
  ℕ, zero, suc, ◌≤◌, ◌<◌, ◌≡◌, refl, inl, inr, true, false, not, ◌||◌, Option, some, List, [], ◌∷◌,
  All, In, count_if, count_if_mono, count_if_lt, arith, Bool-cases, is_positive, update,
}
use react_go_workflow.Engine.Types.{Uuid, Step}
use react_go_workflow.Engine.Graph.{downstream, Graph}
use react_go_workflow.Engine.Skip.{Run, decrement, each, mark_skipped, skip_branch}
use react_go_workflow.Engine.Skip.Rule.{IsPreorder, skip_branch_ind}

-- What is done stays done.
abbrev pub KeepsDone : Run → Run → Type 0
KeepsDone r s = (id : Uuid) → r.done id ≡ true → s.done id ≡ true

pub KeepsDone-preorder : IsPreorder KeepsDone
KeepsDone-preorder = record { same = λ r id h. h; and_then = λ r s t f g id h. g id (f id h) }

pub skip_branch-KeepsDone :
    (steps : List Step) (execs : List Uuid) (g : Graph) (fuel : ℕ) (id : Uuid) (r s : Run)
    → skip_branch steps execs g fuel id r ≡ some s
    → KeepsDone r s
skip_branch-KeepsDone steps execs g =
    skip_branch_ind steps execs g KeepsDone KeepsDone-preorder (λ id r new j h. h)
      (λ id r new j h. ground arith)

-- How many of the listed steps are not done.
abbrev pub undone : List Uuid → Run → ℕ
undone all r = count_if (λ id. not (r.done id)) all

pub undone_mono : (all : List Uuid) (r s : Run) → KeepsDone r s → undone all s ≤ undone all r
undone_mono all r s h =
    count_if_mono (λ id. not (s.done id)) (λ id. not (r.done id)) (λ id e. ground (arith, h id)) all

module _ (steps : List Step) (execs : List Uuid) (g : Graph) (all : List Uuid)
    (closed : (id : Uuid) → All (λ j. In j all) (downstream g id)) where
  undone-mark_skipped :
      (id : Uuid) (r : Run)
      → In id all
      → r.done id ≡ false
      → undone all (mark_skipped steps execs g id r) < undone all r
  undone-mark_skipped id r i new =
      count_if_lt (λ j. not (update r.done id true j)) (λ j. not (r.done j)) (λ j e. ground arith)
        id all i (ground arith) (ground arith)

  abbrev Ends : (Uuid → Run → Option Run) → Uuid → Run → Type 0
  Ends go id r = (s : Run) × (go id r ≡ some s) × KeepsDone r s

  each-Ends :
      (go : Uuid → Run → Option Run) (bound : ℕ)
      → ((id : Uuid) (r : Run) → In id all → undone all r < bound → Ends go id r)
      → (ids : List Uuid) (r : Run) → All (λ j. In j all) ids
      → undone all r < bound
      → (s : Run) × (each go ids r ≡ some s) × KeepsDone r s
  unfolding each
  each-Ends go bound h [] r a b = (r, refl, λ id d. d)
  each-Ends go bound h (id ∷ ids) r a b =
      let (r', went, keeps) = h id r a.0 b in
      let (s, rest, keeps') =
        each-Ends go bound h ids r' a.1 (omega (arith, undone_mono all r r' keeps)) in
      (s, rw (went, each) rest, λ j d. keeps' j (keeps j d))

  pub skip_branch_total :
      (fuel : ℕ) (id : Uuid) (r : Run)
      → In id all
      → undone all r < fuel
      → (s : Run) × (skip_branch steps execs g fuel id r ≡ some s)
  unfolding skip_branch
  skip_branch_total zero id r i b = absurd (omega arith)
  skip_branch_total (suc fuel) id r i b = elim (Bool-cases (r.done id || r.skipped id)) [
    | inl old ↦ (r, rw old)
    | inr new ↦ elim (Bool-cases (is_positive ((decrement id r).in_degree id))) [
      | inl more ↦ (decrement id r, rw (new, more))
      | inr last ↦
          let (s, rest, keeps) =
            each-Ends (skip_branch steps execs g fuel) fuel
              (λ j t ij bj.
                let (u, e) = skip_branch_total fuel j t ij bj in
                (u, e, skip_branch-KeepsDone steps execs g fuel j t u e))
              (downstream g id) (mark_skipped steps execs g id (decrement id r)) (closed id)
              (omega (arith, undone-mark_skipped id (decrement id r) i (ground arith))) in
          (s, rw (new, last) rest)
    ]
  ]
