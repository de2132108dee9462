-- ===== src/Engine/Executor/AtMostOne.antt =====
-- internal/engine/executor.go, Execute: the policy `skip`, where the calls follow one another.
use react_go_workflow.Prelude.{
  ℕ, ◌≤◌, ◌≡◌, refl, inl, inr, ◌⊎◌, true, false, ◌&&◌, some, List, [], ◌∷◌, All, List-cases,
  count_if, ◌==◌, ==_iff, arith, Bool-cases,
}
use react_go_workflow.Engine.Types.{Uuid, Workflow, skip, Status}
use react_go_workflow.Engine.Executor.{
  Execution, Server, Answers, is_running, has_running, execute, add_row, cancel, set_status,
  is_live, return_from, Request, executing, cancelling, returning, serve, serve_all,
}
use react_go_workflow.Engine.Executor.Cancelling.{
  Executes, refused, started, orphaned, execute-Executes,
}

-- How many executions of the workflow run.
abbrev pub running_rows : Uuid → List Execution → ℕ
running_rows wf = count_if (λ x. x.workflow_id == wf && is_running x.status)

pub running_rows-none :
    (wf : Uuid) (l : List Execution) → has_running wf l ≡ false → running_rows wf l ≡ 0
unfolding has_running
running_rows-none wf [] h = refl
running_rows-none wf (x ∷ l) h = ground (arith, h, running_rows-none wf l)

-- A goroutine that returns leaves no more of them.
running_rows-set_status :
    (wf id : Uuid) (s : Status) (l : List Execution)
    → is_running s ≡ false
    → running_rows wf (set_status id s l) ≤ running_rows wf l
unfolding set_status
running_rows-set_status wf id s [] h = omega arith
running_rows-set_status wf id s (x ∷ l) h = ground (arith, h, running_rows-set_status wf id s l h)

-- A call under the policy changes nothing while an execution of its workflow runs.
execute_busy :
    (a : Answers) (v : Server) (w : Workflow)
    → a.workflow ≡ some w
    → w.concurrency ≡ skip
    → has_running w.id v.executions ≡ true
    → (execute a v).server ≡ v
unfolding execute
execute_busy a v w loaded policy there = elim (List-cases w.steps) [
  | inl empty ↦ rw (loaded, empty, execute) refl
  | inr (s, steps, some') ↦ elim (Bool-cases a.can_query) [
    | inl works ↦ rw (loaded, some', policy, works, there, execute) refl
    | inr fails ↦ rw (loaded, some', policy, fails, execute) refl
  ]
]

-- The workflow has the policy whenever a call loads it, and a goroutine that returns has written the
-- status of an execution that does not run.
abbrev pub KeepsPolicy : Uuid → Request → Type 0
KeepsPolicy wf (executing a) =
    (w : Workflow) → a.workflow ≡ some w → w.id ≡ wf → w.concurrency ≡ skip
KeepsPolicy wf (cancelling id) = Unit
KeepsPolicy wf (returning id s) = is_running s ≡ false

module _ (wf : Uuid) where
  abbrev AtMostOne : Server → Type 0
  AtMostOne v = running_rows wf v.executions ≤ 1

  new_row-AtMostOne :
      (v : Server) (w : Workflow) (id : Uuid) (rows : List Uuid)
      → ((w.id == wf) ≡ true → has_running wf v.executions ≡ false)
      → AtMostOne v
      → AtMostOne (add_row id w.id rows v)
  new_row-AtMostOne v w id rows free h = elim (Bool-cases (w.id == wf)) [
    | inl own ↦ ground (arith, own, running_rows-none wf v.executions (free own))
    | inr other ↦ ground (arith, other, h)
  ]

  execute-AtMostOne :
      (a : Answers) (v : Server)
      → KeepsPolicy wf (executing a)
      → AtMostOne v
      → AtMostOne (execute a v).server
  execute-AtMostOne a v keeps h = go (execute-Executes a v)
    where
      stays_or :
          (w : Workflow)
          → a.workflow ≡ some w
          → ((execute a v).server ≡ v) ⊎ ((w.id == wf) ≡ true → has_running wf v.executions ≡ false)
      stays_or w loaded = elim (Bool-cases (has_running wf v.executions)) [
        | inr free ↦ inr (λ own. free)
        | inl there ↦ elim (Bool-cases (w.id == wf)) [
          | inr other ↦ inr (λ own. absurd (ground (arith, own, other)))
          | inl own ↦
              let same = (==_iff w.id wf).0 own in
              inl (execute_busy a v w loaded (keeps w loaded same) (rw same there))
        ]
      ]

      go : Executes a v (execute a v) → AtMostOne (execute a v).server
      go (refused e other is) = rw is h
      go (started w id rows loaded new is) = elim (stays_or w loaded) [
        | inl same ↦ rw same h
        | inr free ↦ rw is (new_row-AtMostOne v w id rows free h)
      ]
      go (orphaned w id rows loaded new is) = elim (stays_or w loaded) [
        | inl same ↦ rw same h
        | inr free ↦ rw is (new_row-AtMostOne v w id rows free h)
      ]

  serve-AtMostOne :
      (q : Request) (v : Server) → KeepsPolicy wf q → AtMostOne v → AtMostOne (serve q v)
  unfolding serve
  serve-AtMostOne (executing a) v keeps h = execute-AtMostOne a v keeps h
  serve-AtMostOne (cancelling id) v keeps h = elim (Bool-cases (v.cancels id)) [
    | inl there ↦ rw (there, serve, cancel) h
    | inr not_there ↦ rw (not_there, serve, cancel) h
  ]
  serve-AtMostOne (returning id s) v keeps h = elim (Bool-cases (is_live id v.live)) [
    | inr not_there ↦ rw (not_there, serve, return_from) h
    | inl there ↦
        let fewer = running_rows-set_status wf id s v.executions keeps in
        rw (there, serve, return_from) (omega (arith, fewer, h))
  ]

-- The policy `skip` works where no calls of Execute overlap: after any sequence of calls, cancellations
-- and returns of goroutines, in which each call that loads the workflow finds the policy on it and each
-- goroutine has written a status that is not `running`, at most one execution of the workflow runs, if that
-- holds at first.
pub serve_all-AtMostOne :
    (wf : Uuid) (l : List Request) (v : Server)
    → All (KeepsPolicy wf) l
    → running_rows wf v.executions ≤ 1
    → running_rows wf (serve_all l v).executions ≤ 1
unfolding serve_all
serve_all-AtMostOne wf [] v keeps h = h
serve_all-AtMostOne wf (q ∷ l) v keeps h =
    serve_all-AtMostOne wf l (serve q v) keeps.1 (serve-AtMostOne wf q v keeps.0 h)
