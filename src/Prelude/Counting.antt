-- ===== src/Prelude/Counting.antt =====
-- Counting the entries of a list that pass a test.
use Prim.Native.Nat.{◌+◌, ◌≤◌, ◌<◌}
use mathlib.Core.Path.{◌≡◌, refl}
use mathlib.Core.Logic.{◌⊎◌, inl, inr}
use mathlib.Core.Bool.{Bool, true, false}
use mathlib.Core.List.{List, [], ◌∷◌, ◌++◌}
use native.Mathlib.Omega.{arith}
use react_go_workflow.Prelude.Lists.{In, count_if, length}

module _ {A : Type 0} (p q : A → Bool) where
  -- A test that passes less often counts less.
  pub count_if_mono :
      ((x : A) → p x ≡ true → q x ≡ true) → (xs : List A) → count_if p xs ≤ count_if q xs
  count_if_mono h [] = omega arith
  count_if_mono h (x ∷ xs) = ground (arith, h x, count_if_mono h xs)

  -- And strictly less where it fails on an entry that the other passes.
  pub count_if_lt :
      ((x : A) → p x ≡ true → q x ≡ true)
      → (a : A) (xs : List A) → In a xs
      → p a ≡ false
      → q a ≡ true
      → count_if p xs < count_if q xs
  count_if_lt h a [] i f t = absurd i
  count_if_lt h a (x ∷ xs) (inl e) f t = ground (arith, count_if_mono h xs, e)
  count_if_lt h a (x ∷ xs) (inr i) f t = ground (arith, h x, count_if_lt h a xs i f t)

  pub count_if_cong : ((x : A) → p x ≡ q x) → (xs : List A) → count_if p xs ≡ count_if q xs
  count_if_cong h [] = refl
  count_if_cong h (x ∷ xs) = ground (arith, h x, count_if_cong h xs)

module _ {A : Type 0} (p : A → Bool) where
  pub count_if-append : (xs ys : List A) → count_if p (xs ++ ys) ≡ count_if p xs + count_if p ys
  count_if-append [] ys = omega arith
  count_if-append (x ∷ xs) ys = ground (arith, count_if-append xs ys)

  pub count_if-le-length : (xs : List A) → count_if p xs ≤ length xs
  count_if-le-length [] = omega arith
  count_if-le-length (x ∷ xs) = ground (arith, count_if-le-length xs)

  pub count_if_zero : (a : A) (xs : List A) → In a xs → count_if p xs ≡ 0 → p a ≡ false
  count_if_zero a [] i h = absurd i
  count_if_zero a (x ∷ xs) (inl e) h = ground (arith, e)
  count_if_zero a (x ∷ xs) (inr i) h = ground (arith, count_if_zero a xs i)

  pub count_if_all : ((x : A) → p x ≡ true) → (xs : List A) → count_if p xs ≡ length xs
  count_if_all h [] = refl
  count_if_all h (x ∷ xs) = ground (arith, h x, count_if_all h xs)

  pub count_if_none : (xs : List A) → ((x : A) → In x xs → p x ≡ false) → count_if p xs ≡ 0
  count_if_none [] h = refl
  count_if_none (x ∷ xs) h = ground (arith, h x (inl refl), count_if_none xs (λ y i. h y (inr i)))

module _ {A : Type 0} where
  pub In-append_left : (a : A) (xs ys : List A) → In a xs → In a (xs ++ ys)
  In-append_left a [] ys i = absurd i
  In-append_left a (x ∷ xs) ys (inl e) = inl e
  In-append_left a (x ∷ xs) ys (inr i) = inr (In-append_left a xs ys i)

  pub In-append_right : (a : A) (xs ys : List A) → In a ys → In a (xs ++ ys)
  In-append_right a [] ys i = i
  In-append_right a (x ∷ xs) ys i = inr (In-append_right a xs ys i)

  pub In-append : (a : A) (xs ys : List A) → In a (xs ++ ys) → In a xs ⊎ In a ys
  In-append a [] ys i = inr i
  In-append a (x ∷ xs) ys (inl e) = inl (inl e)
  In-append a (x ∷ xs) ys (inr i) = elim (In-append a xs ys i) [
    | inl j ↦ inl (inr j)
    | inr j ↦ inr j
  ]
