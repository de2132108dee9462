-- ===== src/Workflows/Repository/Transactions.antt =====
-- A transaction of internal/workflow/repository.go makes all of its statements, or none.
use react_go_workflow.Prelude.{◌≡◌, refl, sym, ◌∙◌, ap, ◌⊎◌, inl, inr, List, [], ◌∷◌}
use react_go_workflow.Workflows.Tables.{Tables}
use react_go_workflow.Workflows.Database.{
  Statement, apply_all, Database, DatabaseLaws, DbError, Reply, ok, err,
}
use react_go_workflow.Workflows.Repository.{Returned, run_statements, in_transaction}

-- The commit of a transaction that saw the tables reported the error.
abbrev pub CommitReported : (db : Database) → DatabaseLaws db → DbError → Tables → Type 0
CommitReported db laws e after = (t : db.Tx) × (laws.seen t ≡ after) × ((db.commit t).0 ≡ err e)

-- What holds of the tables before and after: all is done and reported, or an error is reported, and
-- then nothing is done unless it was Commit that reported it.
abbrev pub Atomic :
    (Reported : DbError → Tables → Type 0)
    → (Tables → Tables → Type 0)
    → (reply : Reply (Unit {0})) → (before after : Tables) → Type 0
Atomic Reported Done reply before after =
    ((reply ≡ ok tt) × Done before after)
    ⊎ ((e : DbError) × (reply ≡ err e)
        × ((after ≡ before) ⊎ (Done before after × Reported e after)))

module _ (db : Database) (laws : DatabaseLaws db) where
  open laws use {tables, seen, base, begins, executes, commits, commit_fails, rolls_back}

  abbrev pub Done : List Statement → Tables → Tables → Type 0
  Done l t u = u ≡ apply_all l t

  commit-Atomic :
      (t : db.Tx) (r : Reply (Unit {0}))
      → (db.commit t).0 ≡ r
      → Atomic (CommitReported db laws) (λ _ u. u ≡ seen t) r (base t) (tables (db.commit t).1)
  commit-Atomic t (ok tt) is = inl (refl, commits t is)
  commit-Atomic t (err e) is = inr (e, refl, either (commit_fails t))
    where
      either :
          (tables (db.commit t).1 ≡ seen t) ⊎ (tables (db.commit t).1 ≡ base t)
          → (tables (db.commit t).1 ≡ base t)
            ⊎ ((tables (db.commit t).1 ≡ seen t)
                × CommitReported db laws e (tables (db.commit t).1))
      either (inl made) = inr (made, (t, sym made, is))
      either (inr not_made) = inl not_made

  abbrev Ran : List Statement → db.Tx → Returned db (Unit {0}) → Type 0
  Ran l t r =
      Atomic (CommitReported db laws) (λ _ u. u ≡ apply_all l (seen t)) r.reply (base t)
        (tables r.state)

  -- One statement more.
  Ran-cons :
      (q : Statement) (l : List Statement) (t u : db.Tx) (r : Returned db (Unit {0}))
      → db.exec q t ≡ ok u
      → Ran l u r
      → Ran (q ∷ l) t r
  unfolding apply_all
  Ran-cons q l t u r is (inl (all, done)) = inl (all, done ∙ ap (apply_all l) (executes q t u is).0)
  Ran-cons q l t u r is (inr (e, failed, inl undone)) =
      inr (e, failed, inl (undone ∙ (executes q t u is).1))
  Ran-cons q l t u r is (inr (e, failed, inr (done, reported))) =
      inr (e, failed, inr (done ∙ ap (apply_all l) (executes q t u is).0, reported))

  run_statements-Ran : (l : List Statement) (t : db.Tx) → Ran l t (run_statements db l t)
  unfolding run_statements apply_all
  run_statements-Ran [] t = commit-Atomic t (db.commit t).0 refl
  run_statements-Ran (q ∷ l) t = go (run_statements-Ran l) (db.exec q t) refl
    where
      go :
          ((u : db.Tx) → Ran l u (run_statements db l u))
          → (r : Reply db.Tx) → db.exec q t ≡ r
          → Ran (q ∷ l) t (elim r [
            | ok u ↦ run_statements db l u
            | err e ↦ record { reply = err e; state = db.rollback t }
          ])
      go later (ok u) is = Ran-cons q l t u (run_statements db l u) is (later u)
      go later (err e) is = inr (e, refl, inl (rolls_back t))

  -- The transaction as a whole, on the tables that are committed.
  pub in_transaction-Atomic :
      (l : List Statement) (s : db.State)
      → Atomic
          (CommitReported db laws)
          (Done l)
          (in_transaction db l s).reply
          (tables s)
          (tables (in_transaction db l s).state)
  in_transaction-Atomic l s = go (db.begin s) refl
    where
      moved :
          (t : db.Tx) (r : Returned db (Unit {0}))
          → (seen t ≡ tables s) × (base t ≡ tables s)
          → Ran l t r
          → Atomic (CommitReported db laws) (Done l) r.reply (tables s) (tables r.state)
      moved t r (sees, starts) (inl (all, done)) = inl (all, done ∙ ap (apply_all l) sees)
      moved t r (sees, starts) (inr (e, failed, inl undone)) =
          inr (e, failed, inl (undone ∙ starts))
      moved t r (sees, starts) (inr (e, failed, inr (done, reported))) =
          inr (e, failed, inr (done ∙ ap (apply_all l) sees, reported))

      go :
          (r : Reply db.Tx)
          → db.begin s ≡ r
          → (let out : Returned db (Unit {0}) = elim r [
            | ok t ↦ run_statements db l t
            | err e ↦ record { reply = err e; state = s }
          ] in
              Atomic (CommitReported db laws) (Done l) out.reply (tables s) (tables out.state))
      go (ok t) is = moved t (run_statements db l t) (begins s t is) (run_statements-Ran l t)
      go (err e) is = inr (e, refl, inl refl)

-- A commit that reports an error was not made.
abbrev pub CommitsOrNot : (db : Database) → DatabaseLaws db → Type 0
CommitsOrNot db laws =
    (t : db.Tx) (e : DbError) → (db.commit t).0 ≡ err e → laws.tables (db.commit t).1 ≡ laws.base t

module _ (db : Database) (laws : DatabaseLaws db) (honest : CommitsOrNot db laws) where
  open laws use {tables, base, begins, executes, rolls_back}

  run_statements_undone :
      (l : List Statement) (t : db.Tx) (e : DbError)
      → (run_statements db l t).reply ≡ err e
      → tables (run_statements db l t).state ≡ base t
  unfolding run_statements
  run_statements_undone [] t e bad = honest t e bad
  run_statements_undone (q ∷ l) t e failed = go (run_statements_undone l) (db.exec q t) refl failed
    where
      go :
          ((u : db.Tx) (e : DbError)
            → (run_statements db l u).reply ≡ err e
            → tables (run_statements db l u).state ≡ base u)
          → (r : Reply db.Tx) → db.exec q t ≡ r
          → (let out : Returned db (Unit {0}) = elim r [
            | ok u ↦ run_statements db l u
            | err e ↦ record { reply = err e; state = db.rollback t }
          ] in
              out.reply ≡ err e → tables out.state ≡ base t)
      go later (ok u) is bad = later u e bad ∙ (executes q t u is).1
      go later (err d) is bad = rolls_back t

  -- Then an error of a transaction says that nothing has changed.
  pub in_transaction_undone :
      (l : List Statement) (s : db.State) (e : DbError)
      → (in_transaction db l s).reply ≡ err e
      → tables (in_transaction db l s).state ≡ tables s
  in_transaction_undone l s e = go (db.begin s) refl
    where
      go :
          (r : Reply db.Tx)
          → db.begin s ≡ r
          → (let out : Returned db (Unit {0}) = elim r [
            | ok t ↦ run_statements db l t
            | err e ↦ record { reply = err e; state = s }
          ] in
              out.reply ≡ err e → tables out.state ≡ tables s)
      go (ok t) is bad = run_statements_undone l t e bad ∙ (begins s t is).1
      go (err d) is bad = refl

-- What is done may be stated in other words.
pub Atomic-map :
    (E : DbError → Tables → Type 0) (P Q : Tables → Tables → Type 0) (r : Reply (Unit {0}))
    (t u : Tables)
    → (P t u → Q t u)
    → Atomic E P r t u
    → Atomic E Q r t u
Atomic-map E P Q r t u f (inl (all, done)) = inl (all, f done)
Atomic-map E P Q r t u f (inr (e, failed, inl undone)) = inr (e, failed, inl undone)
Atomic-map E P Q r t u f (inr (e, failed, inr (done, said))) = inr (e, failed, inr (f done, said))
