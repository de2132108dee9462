-- ===== src/Engine/Safety/Results.antt =====
-- Processing the results of a wave pays what the completed steps owe.
use mathlib.Core.Option.{some_inj}
use react_go_workflow.Prelude.{
  ℕ, ◌≡◌, refl, sym, inl, inr, true, false, not, some, List, [], ◌∷◌, ◌++◌, arith, Bool-cases,
  Option-cases, ◌==◌, ==_iff, then_some, subst, In,
}
use react_go_workflow.Value.{Object}
use react_go_workflow.Engine.Errors.{Error}
use react_go_workflow.Engine.Types.{Uuid, Step, Edge}
use react_go_workflow.Engine.Graph.{Platform, Graph, step_by_id, targets, downstream}
use react_go_workflow.Engine.Graph.Balance.{times}
use react_go_workflow.Engine.Skip.{Run, skip_branch}
use react_go_workflow.Engine.Dag.{
  is_taken, follow_error_edges, process_failure, follow_edges, decrement_all, record_output,
  process_success,
}
use react_go_workflow.Engine.Dag.Rule.{process_failure_cases}
use react_go_workflow.Engine.Safety.Settled.{settled, SettledIsDone, count_if-remove}
use react_go_workflow.Engine.Safety.Owed.{Owes, Owes-decrement, Owes-skip_branch}

pub step_by_id-id :
    (steps : List Step) (id : Uuid) (s : Step) → step_by_id steps id ≡ some s → s.id ≡ id
unfolding step_by_id
step_by_id-id [] id s e = cc
step_by_id-id (x ∷ steps) id s e = elim (Option-cases (step_by_id steps id)) [
  | inl none' ↦ ground arith
  | inr (y, found) ↦ step_by_id-id steps id s (ground arith)
]

module _ (p : Platform) (steps : List Step) (execs : List Uuid) (g : Graph) (Q : Uuid → Type 0)
    (agree : (s t : Uuid) → times t (downstream g s) ≡ times s (g.normal_deps t))
    (apart : (s : Uuid) (e : Edge) → In e (g.error_edges s) → Q e.target_step_id → ⊥) where
  abbrev pub Kept : List Uuid → Run → Type 0
  Kept owed r = Owes g Q owed r × SettledIsDone r

  follow_error_edges-Kept :
      (s : Step) (x : Error) (edges : List Edge) (r : Run)
      → ((e : Edge) → In e edges → Q e.target_step_id → ⊥)
      → Kept [] r
      → Kept [] (follow_error_edges p steps execs g s x edges r)
  unfolding follow_error_edges
  follow_error_edges-Kept s x [] r a h = h
  follow_error_edges-Kept s x (e ∷ edges) r a h =
      follow_error_edges-Kept s x edges _ (λ e' i. a e' (inr i))
        (
          λ u q new. elim (Bool-cases (e.target_step_id == u)) [
            | inl same ↦ absurd (a e (inl refl) (subst Q (sym ((==_iff _ u).0 same)) q))
            | inr other ↦ ground (arith, h.0 u q new)
          ],
          h.1,
        )

  pub process_failure-Kept :
      (s : Step) (x : Error) (r : Run) → Kept [] r → Kept [] (process_failure p steps execs g s x r)
  process_failure-Kept s x r h =
      let k = follow_error_edges-Kept s x (g.error_edges s.id) r (apart s.id) h in
      process_failure_cases p steps execs g (Kept []) s x r k (λ _. k)

  decrement_all-Kept : (ids : List Uuid) (r : Run) → Kept ids r → Kept [] (decrement_all ids r)
  unfolding decrement_all
  decrement_all-Kept [] r h = h
  decrement_all-Kept (id ∷ ids) r h =
      decrement_all-Kept ids _ (Owes-decrement g Q id ids r h.0, h.1)

  follow_edges-Kept :
      (fuel : ℕ) (s : Step) (output : Object) (edges : List Edge) (owed : List Uuid) (r t : Run)
      → Kept (targets edges ++ owed) r
      → follow_edges p steps execs g fuel s output edges r ≡ some t
      → Kept owed t
  unfolding follow_edges
  follow_edges-Kept fuel s output [] owed r t h e = subst (Kept owed) (some_inj.0 e) h
  follow_edges-Kept fuel s output (edge ∷ edges) owed r t h e =
      let rest = targets edges ++ owed in
      elim (Bool-cases (is_taken s output edge)) [
        | inl taken ↦
            follow_edges-Kept fuel s output edges owed _ t
              (Owes-decrement g Q edge.target_step_id rest r h.0, h.1) (rw taken at e)
        | inr left ↦
            let (r', went, later) =
              then_some (skip_branch steps execs g fuel edge.target_step_id r)
                (follow_edges p steps execs g fuel s output edges) t (rw left at e) in
            follow_edges-Kept fuel s output edges owed r' t
              (Owes-skip_branch g Q steps execs agree fuel edge.target_step_id rest r r' h.1 h.0
                went)
              later
      ]

  record_output-Kept :
      (s : Step) (output : Object) (r : Run)
      → r.done s.id ≡ true
      → settled r s.id ≡ false
      → Kept [] r
      → Kept (downstream g s.id) (record_output p steps execs g s output r)
  record_output-Kept s output r done open_yet h = (
    λ u q new.
        let counted =
          count_if-remove (λ j. not (settled r j))
            (λ j. not (settled (record_output p steps execs g s output r) j)) s.id (ground arith)
            (ground arith) (λ x other. ground arith) (g.normal_deps u) in
        ground (arith, h.0 u q new, counted, agree s.id u),
    λ j e. ground (arith, h.1 j),
  )

  pub process_success-Kept :
      (fuel : ℕ) (s : Step) (output : Object) (r t : Run)
      → r.done s.id ≡ true
      → settled r s.id ≡ false
      → Kept [] r
      → process_success p steps execs g fuel s output r ≡ some t
      → Kept [] t
  unfolding process_success
  process_success-Kept fuel s output r t done open_yet h e =
      let (r', went, rest) =
        then_some
          (follow_edges p steps execs g fuel s output (g.normal_edges s.id)
            (record_output p steps execs g s output r))
          (λ u. some (decrement_all (g.implicit_downstream s.id) u)) t e in
      subst (Kept []) (some_inj.0 rest) (
        decrement_all-Kept (g.implicit_downstream s.id) r' (
          follow_edges-Kept fuel s output (g.normal_edges s.id) (g.implicit_downstream s.id) _ r'
            (record_output-Kept s output r done open_yet h) went))
