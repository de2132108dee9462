-- ===== src/Engine/Safety/Grow.antt =====
-- Processing results adds to the trace, and starts no step.
use mathlib.Core.List.{append_assoc, append-nil}
use react_go_workflow.Prelude.{
  ◌≡◌, refl, sym, ◌∙◌, inl, inr, ap, Bool-cases, List, [], ◌++◌, In, In-append_left,
}
use react_go_workflow.Engine.Types.{Uuid, Step, Effect}
use react_go_workflow.Engine.Attempts.Laws.{IsStepEffect, All-append, IsQuiet}
use react_go_workflow.Engine.Graph.{Platform, Graph}
use react_go_workflow.Engine.Skip.{Run, has_row, skip_effects}
use react_go_workflow.Engine.Skip.Rule.{IsPreorder}
use react_go_workflow.Engine.Trace.{started, finished, started-append, finished-append}
use react_go_workflow.Engine.Dag.Rule.{IsKept}

-- The trace of a run goes on with effects that start no step.
pub record Grows (r t : Run) : Type 0 where
  pub added : List Effect
  pub trace : t.trace ≡ r.trace ++ added
  pub quiet : IsQuiet added

pub Grows-same : (r t : Run) → t.trace ≡ r.trace → Grows r t
Grows-same r t e = record {
  added = [];
  trace = e ∙ sym (append-nil r.trace);
  quiet = record { idle = refl; own = tt };
}

pub Grows-preorder : IsPreorder Grows
Grows-preorder = record {
  same = λ r. Grows-same r r refl;
  and_then = λ r s t f h. record {
    added = f.added ++ h.added;
    trace = h.trace ∙ ap (λ x. x ++ h.added) f.trace ∙ append_assoc r.trace f.added h.added;
    quiet = record {
      idle = rw (started-append f.added h.added, f.quiet.idle) h.quiet.idle;
      own = All-append IsStepEffect f.added h.added f.quiet.own h.quiet.own;
    };
  };
}

module _ (p : Platform) (steps : List Step) (execs : List Uuid) (g : Graph) where
  skip_effects-IsQuiet : (id : Uuid) → IsQuiet (skip_effects steps execs g id)
  skip_effects-IsQuiet id = elim (Bool-cases (has_row steps execs g id execs)) [
    | inl row ↦ rw row (record { idle = refl; own = (tt, ((λ x. cc), tt)) })
    | inr no_row ↦ rw no_row (record { idle = refl; own = ((λ x. cc), tt) })
  ]

  pub In-skip_effects : (id : Uuid) → In id (finished (skip_effects steps execs g id))
  In-skip_effects id = elim (Bool-cases (has_row steps execs g id execs)) [
    | inl row ↦ rw row (inl refl)
    | inr no_row ↦ rw no_row (inl refl)
  ]

  pub Grows-IsKept : IsKept p steps execs g Grows
  Grows-IsKept = record {
    preorder = Grows-preorder;
    lowered = λ id r. Grows-same r _ refl;
    marked = λ id r new. record {
      added = skip_effects steps execs g id;
      trace = refl;
      quiet = skip_effects-IsQuiet id;
    };
    readied = λ id c r. Grows-same r _ refl;
    failed = λ e r. Grows-same r _ refl;
  }

pub Grows-finished :
    (r t : Run) → Grows r t → (j : Uuid) → In j (finished r.trace) → In j (finished t.trace)
Grows-finished r t h j i =
    rw (h.trace, finished-append r.trace h.added) (In-append_left j (finished r.trace) _ i)

pub Grows-started : (r t : Run) → Grows r t → started t.trace ≡ started r.trace
Grows-started r t h =
    rw (h.trace, started-append r.trace h.added, h.quiet.idle) (append-nil (started r.trace))
