-- ===== src/Runners/Compare/Meaning.antt =====
-- runners/condition.go, evaluate: what each operator decides.
use react_go_workflow.Prelude.{
  ◌≡◌, ◌≢◌, refl, sym, ap, ◌↔◌, ◌⊎◌, inl, inr, Bool, true, not, ◌||◌, [], ◌∷◌, ◌++◌, Text, codes,
  text_eq, text_eq_iff, arith, Bool-cases, ◌<◌, ltb,
}
use react_go_workflow.Value.{text_less}
use react_go_workflow.Runners.Compare.{contains, is_blank, evaluate}
use react_go_workflow.Runners.Compare.Laws.{Occurs, contains-Occurs, append-contains}

-- Of two texts that begin differently the first is lower.
abbrev pub Lower : Text → Text → Type 0
Lower s [] = ⊥
Lower [] (d ∷ t) = Unit
Lower (c ∷ s) (d ∷ t) = c < d

-- The order of the dictionary: what follows the part that the texts share is lower in the first.
pub record Precedes (s t : Text) : Type 0 where
  pub front : Text
  pub s_end : Text
  pub t_end : Text
  pub s_split : s ≡ front ++ s_end
  pub t_split : t ≡ front ++ t_end
  pub lower : Lower s_end t_end

text_less-Precedes : (s t : Text) → text_less s t ≡ true → Precedes s t
unfolding text_less
text_less-Precedes s [] h = absurd cc
text_less-Precedes [] (d ∷ t) h = record {
  front = [];
  s_end = [];
  t_end = d ∷ t;
  s_split = refl;
  t_split = refl;
  lower = tt;
}
text_less-Precedes (c ∷ s) (d ∷ t) h = elim (Bool-cases (ltb c d)) [
  | inl less ↦ record {
    front = [];
    s_end = c ∷ s;
    t_end = d ∷ t;
    s_split = refl;
    t_split = refl;
    lower = ground (arith, less);
  }
  | inr not_less ↦
      let same : c ≡ d = ground (arith, h, not_less) in
      let later = text_less-Precedes s t (ground (arith, h, not_less)) in
      record {
        front = c ∷ later.front;
        s_end = later.s_end;
        t_end = later.t_end;
        s_split = ap (λ x. c ∷ x) later.s_split;
        t_split = rw (sym same) (ap (λ x. c ∷ x) later.t_split);
        lower = later.lower;
      }
]

append-text_less : (front s t : Text) → Lower s t → text_less (front ++ s) (front ++ t) ≡ true
unfolding text_less
append-text_less [] s [] l = absurd l
append-text_less [] [] (d ∷ t) l = refl
append-text_less [] (c ∷ s) (d ∷ t) l = ground (arith, l)
append-text_less (c ∷ front) s t l = ground (arith, append-text_less front s t l)

text_less_iff : (s t : Text) → (text_less s t ≡ true) ↔ Precedes s t
text_less_iff s t = (
  text_less-Precedes s t,
  λ h. rw (h.s_split, h.t_split) (append-text_less h.front h.s_end h.t_end h.lower),
)

contains_found : (s sub : Text) → (contains s sub ≡ true) ↔ Occurs sub s
contains_found s sub = (contains-Occurs s sub, λ o. rw o.split (append-contains o.front sub o.back))

is_blank_iff : (s : Text) → (is_blank s ≡ true) ↔ ((s ≡ []) ⊎ (s ≡ codes "<nil>"))
is_blank_iff s = (
  λ h. elim (Bool-cases (text_eq s [])) [
    | inl empty ↦ inl ((text_eq_iff s []).0 empty)
    | inr full ↦ inr ((text_eq_iff s (codes "<nil>")).0 (rw full at h))
  ],
  λ h. elim h [
    | inl empty ↦ rw ((text_eq_iff s []).1 empty) refl
    | inr nil' ↦
        or_true (text_eq s []) (text_eq s (codes "<nil>")) ((text_eq_iff s (codes "<nil>")).1 nil')
  ],
)
  where
    or_true : (a b : Bool) → b ≡ true → (a || b) ≡ true
    or_true a b h = ground (arith, h)

not_iff : {P : Type 0} (b : Bool) → (b ≡ true) ↔ P → (not b ≡ true) ↔ (P → ⊥)
not_iff b h = (
  λ n p. ground (arith, n, h.1 p),
  λ n. elim (Bool-cases b) [ inl yes' ↦ absurd (n (h.0 yes')) | inr no' ↦ rw no' refl ],
)

-- The operator answers true exactly where `P` holds.
abbrev pub Decides : Text → Text → Text → Type 0 → Type 0
Decides operator shown value P = (evaluate shown operator value ≡ true) ↔ P

-- The operators decide what their names say, of two texts: whether they are equal, whether the value
-- stands in the field as a piece of it, which of them stands first in a dictionary, and whether the field is empty
-- or what a missing value is printed as.
pub evaluate-Decides :
    (shown value : Text)
    → Decides (codes "equals") shown value (shown ≡ value)
      × Decides (codes "not_equals") shown value (shown ≢ value)
      × Decides (codes "contains") shown value (Occurs value shown)
      × Decides (codes "not_contains") shown value (Occurs value shown → ⊥)
      × Decides (codes "greater_than") shown value (Precedes value shown)
      × Decides (codes "less_than") shown value (Precedes shown value)
      × Decides (codes "is_empty") shown value ((shown ≡ []) ⊎ (shown ≡ codes "<nil>"))
      × Decides (codes "is_not_empty") shown value ((shown ≡ []) ⊎ (shown ≡ codes "<nil>") → ⊥)
unfolding evaluate text_eq
evaluate-Decides shown value = (
  text_eq_iff shown value,
  not_iff (text_eq shown value) (text_eq_iff shown value),
  contains_found shown value,
  not_iff (contains shown value) (contains_found shown value),
  text_less_iff value shown,
  text_less_iff shown value,
  is_blank_iff shown,
  not_iff (is_blank shown) (is_blank_iff shown),
)
