-- ===== src/Runners/Compare/Laws.antt =====
-- What the comparisons of conditions and filters decide.
use react_go_workflow.Prelude.{
  ◌≡◌, refl, ap, ◌↔◌, ◌⊎◌, inl, inr, Bool, true, false, [], ◌∷◌, ◌++◌, Text, codes, text_eq,
  text_eq_iff, arith, Bool-cases, ◌==◌, ==_iff,
}
use react_go_workflow.Value.{text_less}
use react_go_workflow.Runners.Compare.{has_prefix, contains, evaluate}

has_prefix-append : (s p : Text) → has_prefix s p ≡ true → (post : Text) × (s ≡ p ++ post)
unfolding has_prefix
has_prefix-append s [] h = (s, refl)
has_prefix-append [] (c ∷ p) h = absurd cc
has_prefix-append (d ∷ s) (c ∷ p) h = elim (Bool-cases (d == c)) [
  | inl same ↦
      let (post, e) = has_prefix-append s p (rw (same, has_prefix) at h) in
      (post, rw ((==_iff d c).0 same) (ap (λ x. c ∷ x) e))
  | inr other ↦ absurd (false_true (rw (other, has_prefix) at h))
]
  where
    false_true : false ≡ true → ⊥
    false_true e = absurd cc

append-has_prefix : (p post : Text) → has_prefix (p ++ post) p ≡ true
unfolding has_prefix
append-has_prefix [] [] = refl
append-has_prefix [] (c ∷ post) = refl
append-has_prefix (c ∷ p) post = ground (arith, append-has_prefix p post)

-- A place of a text in another.
pub record Occurs (sub s : Text) : Type 0 where
  pub front : Text
  pub back : Text
  pub split : s ≡ front ++ (sub ++ back)

pub contains-Occurs : (s sub : Text) → contains s sub ≡ true → Occurs sub s
unfolding contains
contains-Occurs [] sub h =
    let (post, e) = has_prefix-append [] sub h in record { front = []; back = post; split = e }
contains-Occurs (c ∷ s) sub h = elim (Bool-cases (has_prefix (c ∷ s) sub)) [
  | inl here ↦
      let (post, e) = has_prefix-append (c ∷ s) sub here in
      record { front = []; back = post; split = e }
  | inr later ↦
      let o = contains-Occurs s sub (rw (later, contains) at h) in
      record { front = c ∷ o.front; back = o.back; split = ap (λ x. c ∷ x) o.split }
]

pub append-contains : (front sub back : Text) → contains (front ++ (sub ++ back)) sub ≡ true
unfolding contains
append-contains [] sub back = first (sub ++ back) (append-has_prefix sub back)
  where
    first : (s : Text) → has_prefix s sub ≡ true → contains s sub ≡ true
    first [] h = h
    first (c ∷ s) h = rw (h, contains) refl
append-contains (c ∷ front) sub back =
    elim (Bool-cases (has_prefix (c ∷ (front ++ (sub ++ back))) sub)) [
      | inl here ↦ rw (here, contains) refl
      | inr later ↦ rw (later, contains) (append-contains front sub back)
    ]

-- The operator `contains` holds exactly where the value stands in the field as a piece of it, and
-- `not_contains` where it does not.
pub contains_iff :
    (shown value : Text)
    → ((evaluate shown (codes "contains") value ≡ true) ↔ Occurs value shown)
      × ((evaluate shown (codes "not_contains") value ≡ true) ↔ (Occurs value shown → ⊥))
unfolding evaluate text_eq
contains_iff shown value = (
  (contains-Occurs shown value, found),
  (
    λ h o. ground (arith, h, found o),
    λ absent. elim (Bool-cases (contains shown value)) [
      | inl there ↦ absurd (absent (contains-Occurs shown value there))
      | inr no' ↦ rw no' refl
    ],
  ),
)
  where
    found : Occurs value shown → contains shown value ≡ true
    found o = rw o.split (append-contains o.front value o.back)

text_less_irrefl : (s : Text) → text_less s s ≡ false
unfolding text_less
text_less_irrefl [] = refl
text_less_irrefl (c ∷ s) = ground (arith, text_less_irrefl s)

text_less_asym : (s t : Text) → text_less s t ≡ true → text_less t s ≡ false
unfolding text_less
text_less_asym s [] h = absurd cc
text_less_asym [] (d ∷ t) h = refl
text_less_asym (c ∷ s) (d ∷ t) h = ground (arith, text_less_asym s t)

text_less_total : (s t : Text) → text_less s t ≡ false → text_less t s ≡ false → s ≡ t
unfolding text_less
text_less_total [] [] h k = refl
text_less_total [] (d ∷ t) h k = absurd cc
text_less_total (c ∷ s) [] h k = absurd cc
text_less_total (c ∷ s) (d ∷ t) h k = ground (arith, text_less_total s t)

-- What the three order operators answer.
abbrev pub Answers : Text → Text → (less equal greater : Bool) → Type 0
Answers shown value less equal greater =
    (evaluate shown (codes "less_than") value ≡ less)
    × (evaluate shown (codes "equals") value ≡ equal)
    × (evaluate shown (codes "greater_than") value ≡ greater)

-- Of less_than, equals and greater_than exactly one holds of two texts.
pub evaluate_trichotomy :
    (shown value : Text)
    → Answers shown value true false false
      ⊎ Answers shown value false true false
      ⊎ Answers shown value false false true
unfolding evaluate text_eq
evaluate_trichotomy shown value = elim (Bool-cases (text_less shown value)) [
  | inl less ↦ inl (less, unequal less, text_less_asym shown value less)
  | inr not_less ↦ elim (Bool-cases (text_less value shown)) [
    | inl greater ↦ inr (inr (not_less, flip greater, greater))
    | inr not_greater ↦ inr (
        inl (
          not_less,
          (text_eq_iff shown value).1 (text_less_total shown value not_less not_greater),
          not_greater,
        ))
  ]
]
  where
    unequal : text_less shown value ≡ true → text_eq shown value ≡ false
    unequal less = elim (Bool-cases (text_eq shown value)) [
      | inl same ↦ ground (
        arith,
        less,
        text_less_irrefl value,
        ap (λ x. text_less x value) ((text_eq_iff shown value).0 same),
      )
      | inr other ↦ other
    ]

    flip : text_less value shown ≡ true → text_eq shown value ≡ false
    flip greater = elim (Bool-cases (text_eq shown value)) [
      | inl same ↦ ground (
        arith,
        greater,
        text_less_irrefl value,
        ap (λ x. text_less value x) ((text_eq_iff shown value).0 same),
      )
      | inr other ↦ other
    ]
