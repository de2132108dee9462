-- ===== src/Engine/Executor/Orphans.antt =====
-- An execution that Execute left behind stays, and blocks its workflow.
use react_go_workflow.Prelude.{
  ◌≡◌, ◌≢◌, refl, sym, ap, ◌∙◌, ◌⊎◌, inl, inr, true, false, none, some, List, [], ◌∷◌, All, ◌==◌,
  ==_iff, ==_refl, arith, Bool-cases,
}
use mathlib.Core.Option.{some_inj}
use react_go_workflow.Engine.Types.{Uuid, Step, Workflow, skip, Status, running}
use react_go_workflow.Engine.Executor.{
  Execution, Server, Answers, ExecuteError, execution_skipped, create_step, has_running, execute,
  cancel, set_status, is_live, return_from, Request, executing, cancelling, returning, serve,
  serve_all,
}
use react_go_workflow.Engine.Executor.Cancelling.{
  Executes, refused, started, orphaned, execute-Executes, live_without,
}

-- A running row of the workflow.
abbrev pub HasRow : Uuid → Uuid → List Execution → Type 0
HasRow id wf [] = ⊥
HasRow id wf (x ∷ l) = ((x.id ≡ id) × (x.workflow_id ≡ wf) × (x.status ≡ running)) ⊎ HasRow id wf l

-- A running execution with no goroutine and no cancel function.
pub record IsOrphan (id wf : Uuid) (v : Server) : Type 0 where
  pub row : HasRow id wf v.executions
  pub dead : is_live id v.live ≡ false
  pub no_cancel : v.cancels id ≡ false

-- The database gives no new execution the id.
abbrev pub IsFresh : Uuid → Request → Type 0
IsFresh id (executing a) = a.new_id ≢ some id
IsFresh id (cancelling j) = Unit
IsFresh id (returning j s) = Unit

HasRow-set_status :
    (id wf j : Uuid) (s : Status) (l : List Execution)
    → j ≢ id
    → HasRow id wf l
    → HasRow id wf (set_status j s l)
unfolding set_status
HasRow-set_status id wf j s [] n i = i
HasRow-set_status id wf j s (x ∷ l) n (inl (same, of_wf, is)) = elim (Bool-cases (x.id == j)) [
  | inl hit ↦ absurd (n (ground (arith, same, hit)))
  | inr miss ↦ rw (miss, set_status) (inl (same, of_wf, is))
]
HasRow-set_status id wf j s (x ∷ l) n (inr i) = inr (HasRow-set_status id wf j s l n i)

HasRow-has_running : (id wf : Uuid) (l : List Execution) → HasRow id wf l → has_running wf l ≡ true
unfolding has_running
HasRow-has_running id wf [] i = absurd i
HasRow-has_running id wf (x ∷ l) (inl (same, of_wf, is)) =
    rw (of_wf, is, ==_refl wf, has_running) refl
HasRow-has_running id wf (x ∷ l) (inr i) = ground (arith, HasRow-has_running id wf l i)

module _ (id wf : Uuid) where
  execute-IsOrphan :
      (a : Answers) (v : Server)
      → a.new_id ≢ some id
      → IsOrphan id wf v
      → IsOrphan id wf (execute a v).server
  execute-IsOrphan a v fresh h = go (execute-Executes a v)
    where
      other : (j : Uuid) → a.new_id ≡ some j → (j == id) ≡ false
      other j new = elim (Bool-cases (j == id)) [
        | inl same ↦ absurd (fresh (new ∙ ap some ((==_iff j id).0 same)))
        | inr apart ↦ apart
      ]

      go : Executes a v (execute a v) → IsOrphan id wf (execute a v).server
      go (refused e other is) = rw is h
      go (started w j rows loaded new is) = rw is (record {
        row = inr h.row;
        dead = unfold is_live in ground (arith, other j new, h.dead);
        no_cancel = ground (arith, other j new, h.no_cancel);
      })
      go (orphaned w j rows loaded new is) =
          rw is (record { row = inr h.row; dead = h.dead; no_cancel = h.no_cancel })

  serve-IsOrphan :
      (q : Request) (v : Server) → IsFresh id q → IsOrphan id wf v → IsOrphan id wf (serve q v)
  unfolding serve
  serve-IsOrphan (executing a) v fresh h = execute-IsOrphan a v fresh h
  serve-IsOrphan (cancelling j) v fresh h = elim (Bool-cases (v.cancels j)) [
    | inl there ↦
        rw (there, serve, cancel) (record { row = h.row; dead = h.dead; no_cancel = h.no_cancel })
    | inr not_there ↦ rw (not_there, serve, cancel) h
  ]
  serve-IsOrphan (returning j s) v fresh h = elim (Bool-cases (is_live j v.live)) [
    | inr not_there ↦ rw (not_there, serve, return_from) h
    | inl there ↦
        let other : j ≢ id =
          λ same. true_false (sym there ∙ ap (λ i. is_live i v.live) same ∙ h.dead) in
        rw (there, serve, return_from)
          (record {
            row = HasRow-set_status id wf j s v.executions other h.row;
            dead = ground (arith, live_without j id v.live, h.dead);
            no_cancel = ground (arith, h.no_cancel);
          })
  ]
    where
      true_false : true ≡ false → ⊥
      true_false q = absurd cc

  serve_all-IsOrphan :
      (l : List Request) (v : Server)
      → All (IsFresh id) l
      → IsOrphan id wf v
      → IsOrphan id wf (serve_all l v)
  unfolding serve_all
  serve_all-IsOrphan [] v fresh h = h
  serve_all-IsOrphan (q ∷ l) v fresh h =
      serve_all-IsOrphan l (serve q v) fresh.1 (serve-IsOrphan q v fresh.0 h)

-- The call of Execute that leaves the orphan: the row of a step could not be created.
IsOrphan-left :
    (a : Answers) (v : Server) (id : Uuid) (w : Workflow)
    → a.workflow ≡ some w
    → a.new_id ≡ some id
    → (execute a v).error ≡ some create_step
    → v.cancels id ≡ false
    → is_live id v.live ≡ false
    → IsOrphan id w.id (execute a v).server
IsOrphan-left a v id w loaded new failed no_cancel dead = go (execute-Executes a v)
  where
    go : Executes a v (execute a v) → IsOrphan id w.id (execute a v).server
    go (refused e other is) = absurd (other (some_inj.0 (sym (ap (λ x. x.error) is) ∙ failed)))
    go (started w' j rows loaded' new' is) =
        absurd (none_some (sym (ap (λ x. x.error) is) ∙ failed))
      where
        none_some : {e : ExecuteError} → none ≡ some e → ⊥
        none_some q = absurd cc
    go (orphaned w' j rows loaded' new' is) = rw is (record {
      row =
          inl
            (some_inj.0 (sym new' ∙ new), ap (λ x. x.id) (some_inj.0 (sym loaded' ∙ loaded)), refl);
      dead = dead;
      no_cancel = no_cancel;
    })

skipped_while_running :
    (a : Answers) (v : Server) (w : Workflow) (s : Step) (steps : List Step)
    → a.workflow ≡ some w
    → w.steps ≡ s ∷ steps
    → w.concurrency ≡ skip
    → a.can_query ≡ true
    → has_running w.id v.executions ≡ true
    → (execute a v).error ≡ some execution_skipped
unfolding execute
skipped_while_running a v w s steps loaded some' policy query there =
    rw (loaded, some', policy, query, there, execute) refl

-- A call of Execute that fails at the row of a step leaves an execution behind for good: after any
-- sequence of requests in which the database does not give its id again, Cancel finds nothing to cancel
-- for it, and under the policy `skip` a call of Execute for its workflow is refused, whenever that is
-- loaded with a step and the query for running executions works.
pub orphan_blocks :
    (first : Answers) (v : Server) (id : Uuid) (w : Workflow) (l : List Request) (a : Answers)
    (w' : Workflow) (s : Step) (steps : List Step)
    → first.workflow ≡ some w
    → first.new_id ≡ some id
    → (execute first v).error ≡ some create_step
    → v.cancels id ≡ false
    → is_live id v.live ≡ false
    → All (IsFresh id) l
    → a.workflow ≡ some w'
    → w'.id ≡ w.id
    → w'.steps ≡ s ∷ steps
    → w'.concurrency ≡ skip
    → a.can_query ≡ true
    → ((cancel id (serve_all l (execute first v).server)).0 ≡ false)
      × ((execute a (serve_all l (execute first v).server)).error ≡ some execution_skipped)
orphan_blocks first v id w l a w' s steps loaded new failed no_cancel dead fresh loaded' same some'
      policy query =
    let t = serve_all l (execute first v).server in
    let left =
      serve_all-IsOrphan id w.id l (execute first v).server fresh
        (IsOrphan-left first v id w loaded new failed no_cancel dead) in
    (
      nothing t left.no_cancel,
      skipped_while_running a t w' s steps loaded' some' policy query (
          ap (λ x. has_running x t.executions) same
          ∙ HasRow-has_running id w.id t.executions left.row),
    )
  where
    nothing : (t : Server) → t.cancels id ≡ false → (cancel id t).0 ≡ false
    nothing t none' = unfold cancel in rw (none', cancel) refl
