-- ===== src/Workflows/Repository/Keys.antt =====
-- A database that refuses a statement for its foreign keys only if it breaks one.
use react_go_workflow.Prelude.{◌≡◌, ◌≢◌, refl, sym, subst, Bool, true, false, List, [], ◌∷◌, All}
use react_go_workflow.Workflows.Tables.{Tables}
use react_go_workflow.Workflows.Database.{
  Statement, apply, Database, DatabaseLaws, constraint_failed, Reply, ok, err, insert_step,
  insert_edge, insert_note, insert_workflow, insert_setting, update_workflow,
}
use react_go_workflow.Workflows.Repository.{Returned, run_statements, in_transaction}
use react_go_workflow.Workflows.Repository.Integrity.{IsConsistent}

-- A property of the tables before, between and after the statements.
abbrev pub Through : (Tables → Type 0) → List Statement → Tables → Type 0
Through P [] t = P t
Through P (q ∷ l) t = P t × Through P l (apply q t)

-- What is replied is no error of a foreign key.
abbrev pub NoConstraint : {A : Type 0} → Reply A → Type 0
NoConstraint (ok a) = Unit
NoConstraint (err e) = e ≢ constraint_failed

abbrev pub is_deletion : Statement → Bool
is_deletion (insert_step _) = false
is_deletion (insert_edge _) = false
is_deletion (insert_note _) = false
is_deletion (insert_workflow _) = false
is_deletion (insert_setting _) = false
is_deletion (update_workflow _ _) = false
is_deletion _ = true

-- A deletion can break foreign keys only. They are checked with each statement, so neither Begin nor Commit
-- fails because of one.
pub record ChecksKeys (db : Database) (laws : DatabaseLaws db) : Type 0 where
  pub begin_checks : (s : db.State) → NoConstraint (db.begin s)
  pub exec_checks :
      (q : Statement) (t : db.Tx)
      → is_deletion q ≡ true
      → IsConsistent (apply q (laws.seen t))
      → NoConstraint (db.exec q t)
  pub commit_checks : (t : db.Tx) → NoConstraint (db.commit t).0

module _ (db : Database) (laws : DatabaseLaws db) (keys : ChecksKeys db laws) where
  Through-here : (l : List Statement) (t : Tables) → Through IsConsistent l t → IsConsistent t
  Through-here [] t h = h
  Through-here (q ∷ l) t h = h.0

  run_statements-NoConstraint :
      (l : List Statement) (t : db.Tx)
      → All (λ q. is_deletion q ≡ true) l
      → Through IsConsistent l (laws.seen t)
      → NoConstraint (run_statements db l t).reply
  unfolding run_statements
  run_statements-NoConstraint [] t d h = keys.commit_checks t
  run_statements-NoConstraint (q ∷ l) t d h =
      go (λ u. run_statements-NoConstraint l u d.1) (db.exec q t) refl
    where
      go :
          ((u : db.Tx)
            → Through IsConsistent l (laws.seen u)
            → NoConstraint (run_statements db l u).reply)
          → (r : Reply db.Tx) → db.exec q t ≡ r
          → (let out : Returned db (Unit {0}) = elim r [
            | ok u ↦ run_statements db l u
            | err e ↦ record { reply = err e; state = db.rollback t }
          ] in
              NoConstraint out.reply)
      go later (ok u) is =
          later u (subst (Through IsConsistent l) (sym (laws.executes q t u is).0) h.1)
      go later (err e) is =
          subst NoConstraint is
            (keys.exec_checks q t d.0 (Through-here l (apply q (laws.seen t)) h.1))

  pub in_transaction-NoConstraint :
      (l : List Statement) (s : db.State)
      → All (λ q. is_deletion q ≡ true) l
      → Through IsConsistent l (laws.tables s)
      → NoConstraint (in_transaction db l s).reply
  in_transaction-NoConstraint l s d h = go (db.begin s) refl
    where
      go :
          (r : Reply db.Tx)
          → db.begin s ≡ r
          → (let out : Returned db (Unit {0}) = elim r [
            | ok t ↦ run_statements db l t
            | err e ↦ record { reply = err e; state = s }
          ] in
              NoConstraint out.reply)
      go (ok t) is =
          run_statements-NoConstraint l t d
            (subst (Through IsConsistent l) (sym (laws.begins s t is).0) h)
      go (err e) is = subst NoConstraint is (keys.begin_checks s)
