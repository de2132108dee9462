-- ===== src/Engine/Skip.antt =====
-- executor.go, skipBranch: the variables of executeDAG's loop, and the skipping of a branch that a
-- condition did not take.
pub mod Rule
pub mod Total
use react_go_workflow.Prelude.{
  ℕ, zero, suc, ℤ, pred_ℤ, is_positive, Bool, true, false, ◌||◌, Option, none, some, List, [], ◌∷◌,
  ◌++◌, map, Text, ◌==◌, if◌then◌else◌, update,
}
use react_go_workflow.Value.{Object}
use react_go_workflow.Engine.Errors.{Error}
use react_go_workflow.Engine.Context.{ExecContext}
use react_go_workflow.Engine.Types.{
  Uuid, Step, Edge, Status, skipped, EventType, step_status, LogLine, no_line, Event, Effect,
  skip_step, publish,
}
use react_go_workflow.Engine.Graph.{Graph, step_by_id, downstream}

-- The mutable variables of executeDAG. `outputs` is stepOutputs, with `none` for a missing key.
pub record Run : Type 0 where
  pub in_degree : Uuid → ℤ
  pub done : Uuid → Bool
  pub skipped : Uuid → Bool
  pub outputs : Uuid → Option Object
  pub context : ExecContext
  pub execution_err : Option Error
  pub trace : List Effect

-- inDegree[id]--
abbrev pub decrement : Uuid → Run → Run
decrement id r = record r { in_degree = update r.in_degree id (pred_ℤ (r.in_degree id)) }

abbrev pub emit : List Effect → Run → Run
emit effects r = record r { trace = r.trace ++ effects }

abbrev pub step_name_of : Option Step → Text
step_name_of none = []
step_name_of (some s) = s.name

abbrev pub skip_event : Uuid → Text → Event
skip_event id name = record {
  type = step_status;
  step_id = some id;
  step_name = name;
  status = some Status.skipped;
  output = none;
  error = [];
  line = no_line;
}

-- The steps in turn, until one runs out of fuel.
unfoldable pub each : (Uuid → Run → Option Run) → List Uuid → Run → Option Run
each go [] r = some r
each go (id ∷ ids) r = elim (go id r) [ none ↦ none | some r' ↦ each go ids r' ]

-- `execs` holds the keys of stepExecs.
module _ (steps : List Step) (execs : List Uuid) (g : Graph) where
  abbrev pub has_row : Uuid → List Uuid → Bool
  has_row id [] = false
  has_row id (k ∷ ks) = k == id || has_row id ks

  abbrev pub skip_effects : Uuid → List Effect
  skip_effects id =
      let event = publish (skip_event id (step_name_of (step_by_id steps id))) ∷ [] in
      if has_row id execs then skip_step id ∷ event else event

  abbrev pub mark_skipped : Uuid → Run → Run
  mark_skipped id r =
      emit (skip_effects id)
        (record r { skipped = update r.skipped id true; done = update r.done id true })

  -- skipBranch. The fuel bounds the depth of the recursion; `none` means that it ran out.
  unfoldable pub skip_branch : ℕ → Uuid → Run → Option Run
  unfolding each step_by_id
  skip_branch zero id r = none
  skip_branch (suc fuel) id r =
      let go = skip_branch fuel in
      let lower = decrement id r in
      if r.done id || r.skipped id
      then some r
      else if is_positive (lower.in_degree id)
      then some lower
      else each go (downstream g id) (mark_skipped id lower)
