-- ===== src/Engine/Clock.antt =====
-- The context that executeDAG works under: a cancellable one, with the workflow's timeout if it has one.
use react_go_workflow.Prelude.{
  ℕ, zero, suc, ℤ, is_positive, Bool, false, ◌&&◌, Option, none, some, if◌then◌else◌,
}

-- context.Canceled and context.DeadlineExceeded.
pub data CtxErr : Type 0 where
  canceled deadline_exceeded : CtxErr

-- What the reads of ctx.Err() meet in turn: whether the user has cancelled, and whether the time of
-- the workflow has run out.
pub record World : Type 0 where
  pub cancels : ℕ → Bool
  pub expires : ℕ → Bool

abbrev pub has_timeout : Option ℤ → Bool
has_timeout none = false
has_timeout (some n) = is_positive n

-- The context that executeDAG works under: the first cause stays.
module _ (w : World) (timeout : Option ℤ) where
  abbrev cause_at : ℕ → Option CtxErr
  cause_at k =
      if w.cancels k
      then some canceled
      else if has_timeout timeout && w.expires k
      then some deadline_exceeded
      else none

  unfoldable pub ctx_err : ℕ → Option CtxErr
  ctx_err zero = cause_at zero
  ctx_err (suc k) = elim (ctx_err k) [ some e ↦ some e | none ↦ cause_at (suc k) ]
