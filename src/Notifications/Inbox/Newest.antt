-- ===== src/Notifications/Inbox/Newest.antt =====
-- ORDER BY date_created DESC: of rows with different dates there is one such order.
use mathlib.Core.List.Permᴰ
use mathlib.Core.List.{Permᴰ}
use react_go_workflow.Prelude.{
  suc, ◌≤◌, ◌<◌, ◌≡◌, ◌≢◌, ◌↔◌, refl, sym, ap, ◌∙◌, subst, inl, inr, List, [], ◌∷◌, In, All, All-at,
  length, arith,
}
use react_go_workflow.Notifications.Inbox.{Stored}

-- No row is older than one behind it.
abbrev pub Descending : List Stored → Type 0
Descending [] = Unit
Descending (x ∷ l) = All (λ y. y.date_created ≤ x.date_created) l × Descending l

-- The rows, each as often as it is there, without an older one before a newer one.
pub record IsNewestFirst (rows out : List Stored) : Type 0 where
  pub same : Permᴰ rows out
  pub descends : Descending out

-- No two rows have one date.
abbrev pub DistinctDates : List Stored → Type 0
DistinctDates [] = Unit
DistinctDates (x ∷ l) = All (λ y. x.date_created ≢ y.date_created) l × DistinctDates l

Permᴰ-In : (a b : List Stored) (x : Stored) → Permᴰ a b → In x a → In x b
Permᴰ-In a b x (Permᴰ.nil) i = i
Permᴰ-In (y ∷ a) (z ∷ b) x (Permᴰ.cons e p) (inl is) = inl (sym e ∙ is)
Permᴰ-In (y ∷ a) (z ∷ b) x (Permᴰ.cons e p) (inr i) = inr (Permᴰ-In a b x p i)
Permᴰ-In (y ∷ z ∷ l) (v ∷ w ∷ _) x (Permᴰ.swap e f) (inl is) = inr (inl (sym e ∙ is))
Permᴰ-In (y ∷ z ∷ l) (v ∷ w ∷ _) x (Permᴰ.swap e f) (inr (inl is)) = inl (sym f ∙ is)
Permᴰ-In (y ∷ z ∷ l) (v ∷ w ∷ _) x (Permᴰ.swap e f) (inr (inr i)) = inr (inr i)
Permᴰ-In a c x (Permᴰ.trans {l₂ = b} p q) i = Permᴰ-In b c x q (Permᴰ-In a b x p i)

Permᴰ-length : (a b : List Stored) → Permᴰ a b → length a ≡ length b
Permᴰ-length a b (Permᴰ.nil) = refl
Permᴰ-length (y ∷ a) (z ∷ b) (Permᴰ.cons e p) = ap suc (Permᴰ-length a b p)
Permᴰ-length (y ∷ z ∷ l) (v ∷ w ∷ _) (Permᴰ.swap e f) = refl
Permᴰ-length a c (Permᴰ.trans {l₂ = b} p q) = Permᴰ-length a b p ∙ Permᴰ-length b c q

-- A date that no row of a list has is one that no row of another order of it has.
Permᴰ-All : (P : Stored → Type 0) (a b : List Stored) → Permᴰ a b → All P a → All P b
Permᴰ-All P a b (Permᴰ.nil) h = h
Permᴰ-All P (y ∷ a) (z ∷ b) (Permᴰ.cons e p) h = (subst P e h.0, Permᴰ-All P a b p h.1)
Permᴰ-All P (y ∷ z ∷ l) (v ∷ w ∷ _) (Permᴰ.swap e f) h = (subst P f h.1.0, (subst P e h.0, h.1.1))
Permᴰ-All P a c (Permᴰ.trans {l₂ = b} p q) h = Permᴰ-All P b c q (Permᴰ-All P a b p h)

Permᴰ-DistinctDates : (a b : List Stored) → Permᴰ a b → DistinctDates a → DistinctDates b
Permᴰ-DistinctDates a b (Permᴰ.nil) h = h
Permᴰ-DistinctDates (y ∷ a) (z ∷ b) (Permᴰ.cons e p) h = (
  Permᴰ-All (λ x. z.date_created ≢ x.date_created) a b p
      (subst (λ t. All (λ (x : Stored). t.date_created ≢ x.date_created) a) e h.0),
  Permᴰ-DistinctDates a b p h.1,
)
Permᴰ-DistinctDates (y ∷ z ∷ l) (v ∷ w ∷ _) (Permᴰ.swap e f) h = (
  (
    λ is. h.0.0 (
        ap (λ (t : Stored). t.date_created) e
        ∙ sym is
        ∙ sym (ap (λ (t : Stored). t.date_created) f)),
    subst (λ t. All (λ (x : Stored). t.date_created ≢ x.date_created) l) f h.1.0,
  ),
  (subst (λ t. All (λ (x : Stored). t.date_created ≢ x.date_created) l) e h.0.1, h.1.1),
)
Permᴰ-DistinctDates a c (Permᴰ.trans {l₂ = b} p q) h =
    Permᴰ-DistinctDates b c q (Permᴰ-DistinctDates a b p h)

-- Where the dates differ, each row is newer than those behind it.
abbrev Strict : List Stored → Type 0
Strict [] = Unit
Strict (x ∷ l) = All (λ y. y.date_created < x.date_created) l × Strict l

older :
    (x : Stored) (l : List Stored)
    → All (λ y. y.date_created ≤ x.date_created) l
    → All (λ y. x.date_created ≢ y.date_created) l
    → All (λ y. y.date_created < x.date_created) l
older x [] a b = tt
older x (y ∷ l) a b = (ground (arith, a.0, b.0), older x l a.1 b.1)

Strict-of : (l : List Stored) → Descending l → DistinctDates l → Strict l
Strict-of [] d n = tt
Strict-of (x ∷ l) d n = (older x l d.0 n.0, Strict-of l d.1 n.1)

abbrev Same : (a b : List Stored) → Type 0
Same a b = (x : Stored) → In x a ↔ In x b

-- What stands in both behind the same head.
behind_head :
    (x : Stored) (a b : List Stored)
    → All (λ y. y.date_created < x.date_created) a
    → ((t : Stored) → In t (x ∷ a) → In t (x ∷ b))
    → (t : Stored) → In t a
    → In t b
behind_head x a b older_all to t i = elim (to t (inr i)) [
  | inr j ↦ j
  | inl e ↦ absurd (
      self (All-at (λ y. y.date_created < x.date_created) a older_all t i)
        (ap (λ (y : Stored). y.date_created) e))
]
  where
    self : t.date_created < x.date_created → x.date_created ≡ t.date_created → ⊥
    self less e = omega (arith, less, e)

Strict-unique : (a b : List Stored) → Strict a → Strict b → Same a b → a ≡ b
Strict-unique [] [] s t h = refl
Strict-unique [] (y ∷ b) s t h = absurd ((h y).1 (inl refl))
Strict-unique (x ∷ a) [] s t h = absurd ((h x).0 (inl refl))
Strict-unique (x ∷ a) (y ∷ b) s t h =
    let heads = same_head ((h x).0 (inl refl)) ((h y).1 (inl refl)) in
    let moved : Same (x ∷ a) (x ∷ b) = subst (λ z. Same (x ∷ a) (z ∷ b)) (sym heads) h in
    let later : All (λ z. z.date_created < x.date_created) b =
      subst (λ z. All (λ (u : Stored). u.date_created < z.date_created) b) (sym heads) t.0 in
    ap (λ z. z ∷ a) heads
    ∙ ap (λ l. y ∷ l)
        (Strict-unique a b s.1 t.1 (λ u. (
          behind_head x a b s.0 (λ v. (moved v).0) u,
          behind_head x b a later (λ v. (moved v).1) u,
        )))
  where
    same_head : In x (y ∷ b) → In y (x ∷ a) → x ≡ y
    same_head (inl e) j = sym e
    same_head (inr i) (inl e) = e
    same_head (inr i) (inr j) = absurd (
        both (All-at (λ z. z.date_created < y.date_created) b t.0 x i)
          (All-at (λ z. z.date_created < x.date_created) a s.0 y j))
      where
        both : x.date_created < y.date_created → y.date_created < x.date_created → ⊥
        both p q = omega (arith, p, q)

-- Two answers of the database to one query order the rows alike.
pub IsNewestFirst-unique :
    (rows a b : List Stored)
    → DistinctDates rows
    → IsNewestFirst rows a
    → IsNewestFirst rows b
    → a ≡ b
IsNewestFirst-unique rows a b differ p q =
    Strict-unique a b (Strict-of a p.descends (Permᴰ-DistinctDates rows a p.same differ))
      (Strict-of b q.descends (Permᴰ-DistinctDates rows b q.same differ))
      (λ x. (
        λ i. Permᴰ-In rows b x q.same (Permᴰ-In a rows x (Permᴰ.symm p.same) i),
        λ i. Permᴰ-In rows a x p.same (Permᴰ-In b rows x (Permᴰ.symm q.same) i),
      ))

pub IsNewestFirst-length : (rows a : List Stored) → IsNewestFirst rows a → length a ≡ length rows
IsNewestFirst-length rows a p = sym (Permᴰ-length rows a p.same)
