-- ===== src/Executions/Dates.antt =====
-- The operators `after` and `before` of parseDateFilter mean ranges of times.
use mathlib.Core.Option.{some_inj}
use react_go_workflow.Prelude.{
  ℕ, ◌+◌, ◌≤◌, ◌<◌, ◌≡◌, refl, sym, ◌∙◌, subst, ◌⊎◌, inl, inr, true, false, ◌||◌, Option, none,
  some, List, [], ◌∷◌, All, Text, codes, text_eq, text_eq_iff, Bool-cases, arith,
}
use react_go_workflow.Executions.Filters.{
  Execution, DateField, Predicate, gte, lt, DateError, invalid_date, FilterError, bad_date, Parsed,
  parsed, refused, parse_date, day, dated,
}
use react_go_workflow.Executions.Meaning.{Passes, InRange, after, before, between, IsIn}

-- A filter that is read has predicates which say what is wanted, and one that is refused has a reason.
abbrev pub Means :
    (Execution → Type 0) → (Text → FilterError → Type 0) → Parsed (List Predicate) → Type 0
Means Want Reason (parsed l) =
    (x : Execution) → (All (λ p. Passes p x) l → Want x) × (Want x → All (λ p. Passes p x) l)
Means Want Reason (refused key e) = Reason key e

pub clash : {A : Type 0} {a : A} {o : Option A} → o ≡ none → o ≡ some a → ⊥
clash p q = absurd cc

-- The operators are different texts.
abbrev pub IsAfter : Text → Type 0
IsAfter op = (op ≡ codes "after") ⊎ (op ≡ [])

pub after_before : (op : Text) → IsAfter op → op ≡ codes "before" → ⊥
after_before op (inl a) b = absurd cc
after_before op (inr a) b = absurd cc

pub after_between : (op : Text) → IsAfter op → op ≡ codes "between" → ⊥
after_between op (inl a) b = absurd cc
after_between op (inr a) b = absurd cc

pub before_between : (op : Text) → op ≡ codes "before" → op ≡ codes "between" → ⊥
before_between op a b = absurd cc

pub IsAfter-iff : (op : Text) → (text_eq op (codes "after") || text_eq op []) ≡ true → IsAfter op
IsAfter-iff op h = elim (Bool-cases (text_eq op (codes "after"))) [
  | inl is ↦ inl ((text_eq_iff op (codes "after")).0 is)
  | inr other ↦ inr ((text_eq_iff op []).0 (ground (arith, h, other)))
]

pub not_after : (op : Text) → (text_eq op (codes "after") || text_eq op []) ≡ false → IsAfter op → ⊥
not_after op h (inl e) = ground (arith, h, (text_eq_iff op (codes "after")).1 e)
not_after op h (inr e) = ground (arith, h, (text_eq_iff op []).1 e)

module _ (parse_time parse_day : Text → Option ℕ) (key : Text) (f : DateField) where
  abbrev date : Text → Option ℕ
  date s = parse_date parse_time parse_day s

  -- Why a range is refused.
  abbrev pub NoTime : Text → Text → Text → FilterError → Type 0
  NoTime op val k e =
      (k ≡ key)
      × (d : DateError) × (e ≡ bad_date d)
      × ((t : ℕ) → InRange parse_time parse_day op val t → ⊥)

  abbrev Good : Text → Text → Parsed (List Predicate) → Type 0
  Good op val r = Means (IsIn parse_time parse_day f (op, val)) (NoTime op val) r

  -- `after:` and a date alone.
  pub from_date :
      (op val : Text)
      → IsAfter op
      → Good op val (dated parse_time parse_day key val (λ t. gte f t ∷ []))
  from_date op val is = go (date val) refl
    where
      go :
          (o : Option ℕ)
          → date val ≡ o
          → Good op val (elim o [
            | none ↦ refused key (bad_date (invalid_date val))
            | some t ↦ parsed (gte f t ∷ [])
          ])
      go none at = (
        refl,
        invalid_date val,
        refl,
        λ t r. elim r [
          | after u _ reads le ↦ clash at reads
          | before u b reads less ↦ after_before op is b
          | between from to u v b _ _ _ _ _ _ _ ↦ after_between op is b
        ],
      )
      go (some u) at = λ x. (
        (λ all. (all.0.0, all.0.1, after u is at all.0.2)),
        (λ w. elim w.2 [
          | after v _ reads le ↦
              ((w.0, w.1, subst (λ n. n ≤ w.0) (some_inj.0 (sym reads ∙ at)) le), tt)
          | before v b reads less ↦ absurd (after_before op is b)
          | between from to v y b _ _ _ _ _ _ _ ↦ absurd (after_between op is b)
        ]),
      )

  -- `before:`
  pub to_date :
      (op val : Text)
      → op ≡ codes "before"
      → Good op val (dated parse_time parse_day key val (λ t. lt f (t + day) ∷ []))
  to_date op val is = go (date val) refl
    where
      go :
          (o : Option ℕ)
          → date val ≡ o
          → Good op val (elim o [
            | none ↦ refused key (bad_date (invalid_date val))
            | some t ↦ parsed (lt f (t + day) ∷ [])
          ])
      go none at = (
        refl,
        invalid_date val,
        refl,
        λ t r. elim r [
          | after u a reads le ↦ after_before op a is
          | before u b reads less ↦ clash at reads
          | between from to u v b _ _ _ _ _ _ _ ↦ before_between op is b
        ],
      )
      go (some u) at = λ x. (
        (λ all. (all.0.0, all.0.1, before u is at all.0.2)),
        (λ w. elim w.2 [
          | after v a reads le ↦ absurd (after_before op a is)
          | before v b reads less ↦
              ((w.0, w.1, subst (λ n. w.0 < n + day) (some_inj.0 (sym reads ∙ at)) less), tt)
          | between from to v y b _ _ _ _ _ _ _ ↦ absurd (before_between op is b)
        ]),
      )
