-- ===== src/Engine/Trace.antt =====
-- What a trace shows of the steps: which were started, and which were completed or skipped.
use mathlib.Core.List.{append_assoc, append-nil}
use react_go_workflow.Prelude.{
  ◌≡◌, refl, sym, inl, inr, Option, some, List, [], ◌∷◌, ◌++◌, All, All-at, All-of, In, In-append,
  In-append_left, In-append_right, subst,
}
use react_go_workflow.Engine.Types.{
  Uuid, Effect, start_step, complete_step, publish, fail_step, skip_step, sleep, end_execution,
  notify, Status, skipped,
}

abbrev skipped_step : Option Status → Option Uuid → List Uuid
skipped_step (some skipped) (some id) = id ∷ []
skipped_step _ _ = []

-- The steps that an effect shows to be over without a failure.
abbrev pub finish_of : Effect → List Uuid
finish_of (complete_step id output n) = id ∷ []
finish_of (publish e) = skipped_step e.status e.step_id
finish_of (start_step id) = []
finish_of (fail_step id m) = []
finish_of (skip_step id) = []
finish_of (sleep d) = []
finish_of (end_execution s e o) = []
finish_of (notify s e) = []

abbrev pub start_of : Effect → List Uuid
start_of (start_step id) = id ∷ []
start_of (complete_step id output n) = []
start_of (publish e) = []
start_of (fail_step id m) = []
start_of (skip_step id) = []
start_of (sleep d) = []
start_of (end_execution s e o) = []
start_of (notify s e) = []

abbrev pub finished : List Effect → List Uuid
finished [] = []
finished (e ∷ l) = finish_of e ++ finished l

abbrev pub started : List Effect → List Uuid
started [] = []
started (e ∷ l) = start_of e ++ started l

pub finished-append : (k l : List Effect) → finished (k ++ l) ≡ finished k ++ finished l
finished-append [] l = refl
finished-append (e ∷ k) l =
    rw (finished-append k l) (sym (append_assoc (finish_of e) (finished k) (finished l)))

pub started-append : (k l : List Effect) → started (k ++ l) ≡ started k ++ started l
started-append [] l = refl
started-append (e ∷ k) l =
    rw (started-append k l) (sym (append_assoc (start_of e) (started k) (started l)))

-- Each step that starts satisfies a condition on those that were over before.
abbrev pub IsOrdered : (Uuid → List Uuid → Type 0) → List Uuid → List Effect → Type 0
IsOrdered C over [] = Unit
IsOrdered C over (e ∷ l) = All (λ id. C id over) (start_of e) × IsOrdered C (over ++ finish_of e) l

pub IsOrdered-append :
    (C : Uuid → List Uuid → Type 0) (over : List Uuid) (k l : List Effect)
    → IsOrdered C over k
    → IsOrdered C (over ++ finished k) l
    → IsOrdered C over (k ++ l)
IsOrdered-append C over [] l a b = subst (λ x. IsOrdered C x l) (append-nil over) b
IsOrdered-append C over (e ∷ k) l a b = (
  a.0,
  IsOrdered-append C (over ++ finish_of e) k l a.1
      (subst (λ x. IsOrdered C x l) (sym (append_assoc over (finish_of e) (finished k))) b),
)

-- A trace that starts nothing is in order, and so is one whose starts need only what was over.
pub IsOrdered-idle :
    (C : Uuid → List Uuid → Type 0) (over : List Uuid) (l : List Effect)
    → started l ≡ []
    → IsOrdered C over l
IsOrdered-idle C over [] e = tt
IsOrdered-idle C over (start_step id ∷ l) e = absurd (cc)
IsOrdered-idle C over (complete_step id o n ∷ l) e = (tt, IsOrdered-idle C _ l e)
IsOrdered-idle C over (publish x ∷ l) e = (tt, IsOrdered-idle C _ l e)
IsOrdered-idle C over (fail_step id m ∷ l) e = (tt, IsOrdered-idle C _ l e)
IsOrdered-idle C over (skip_step id ∷ l) e = (tt, IsOrdered-idle C _ l e)
IsOrdered-idle C over (sleep d ∷ l) e = (tt, IsOrdered-idle C _ l e)
IsOrdered-idle C over (end_execution s m o ∷ l) e = (tt, IsOrdered-idle C _ l e)
IsOrdered-idle C over (notify s m ∷ l) e = (tt, IsOrdered-idle C _ l e)

-- No entry stands twice.
abbrev pub Distinct : List Uuid → Type 0
Distinct [] = Unit
Distinct (x ∷ xs) = (In x xs → ⊥) × Distinct xs

pub Distinct-append :
    (xs ys : List Uuid)
    → Distinct xs
    → Distinct ys
    → ((a : Uuid) → In a xs → In a ys → ⊥)
    → Distinct (xs ++ ys)
Distinct-append [] ys a b apart = b
Distinct-append (x ∷ xs) ys a b apart = (
  λ i. elim (In-append x xs ys i) [ inl j ↦ a.0 j | inr j ↦ apart x (inl refl) j ],
  Distinct-append xs ys a.1 b (λ z i j. apart z (inr i) j),
)

-- Where the condition only gains with what is over, it suffices that it holds of all starts at first.
pub IsOrdered-early :
    (C : Uuid → List Uuid → Type 0)
    → ((id : Uuid) (over more : List Uuid) → C id over → C id (over ++ more))
    → (over : List Uuid) (l : List Effect) → ((id : Uuid) → In id (started l) → C id over)
    → IsOrdered C over l
IsOrdered-early C gains over [] h = tt
IsOrdered-early C gains over (e ∷ l) h = (
  All-of (λ id. C id over) (start_of e)
      (λ id i. h id (In-append_left id (start_of e) (started l) i)),
  IsOrdered-early C gains (over ++ finish_of e) l
      (λ id i. gains id over (finish_of e) (h id (In-append_right id (start_of e) (started l) i))),
)

-- A condition that follows holds in the same places.
pub IsOrdered-weaken :
    (C D : Uuid → List Uuid → Type 0)
    → ((id : Uuid) (over : List Uuid) → C id over → D id over)
    → (over : List Uuid) (l : List Effect) → IsOrdered C over l
    → IsOrdered D over l
IsOrdered-weaken C D weaker over [] h = tt
IsOrdered-weaken C D weaker over (e ∷ l) h = (
  All-of (λ id. D id over) (start_of e)
      (λ id i. weaker id over (All-at (λ id. C id over) (start_of e) h.0 id i)),
  IsOrdered-weaken C D weaker (over ++ finish_of e) l h.1,
)
