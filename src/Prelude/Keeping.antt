-- ===== src/Prelude/Keeping.antt =====
-- The entries that a test keeps.
use mathlib.Core.Path.{◌≡◌, refl}
use mathlib.Core.Logic.{inl, inr}
use mathlib.Core.Bool.{Bool, true, false}
use mathlib.Core.List.{List, [], ◌∷◌, ◌++◌}
use native.Mathlib.Omega.{arith}
use react_go_workflow.Prelude.Lists.{In, keep}
use react_go_workflow.Prelude.Tests.{if◌then◌else◌, Bool-cases}

module _ {A : Type 0} (p : A → Bool) where
  pub keep-append : (xs ys : List A) → keep p (xs ++ ys) ≡ keep p xs ++ keep p ys
  keep-append [] ys = refl
  keep-append (x ∷ xs) ys = ground (arith, keep-append xs ys)

  pub keep_all : ((x : A) → p x ≡ true) → (xs : List A) → keep p xs ≡ xs
  keep_all h [] = refl
  keep_all h (x ∷ xs) = rw (h x, keep_all h xs) refl

  pub keep_none : ((x : A) → p x ≡ false) → (xs : List A) → keep p xs ≡ []
  keep_none h [] = refl
  keep_none h (x ∷ xs) = rw (h x) (keep_none h xs)

  pub In-keep : (x : A) (xs : List A) → In x xs → p x ≡ true → In x (keep p xs)
  In-keep x [] i t = i
  In-keep x (y ∷ xs) (inl e) t = rw (e, t) (inl refl)
  In-keep x (y ∷ xs) (inr i) t = elim (Bool-cases (p y)) [
    | inl kept ↦ rw kept (inr (In-keep x xs i t))
    | inr dropped ↦ rw dropped (In-keep x xs i t)
  ]

  -- What is kept was there and passes.
  pub In-of-keep : (x : A) (xs : List A) → In x (keep p xs) → In x xs × (p x ≡ true)
  In-of-keep x [] i = absurd i
  In-of-keep x (y ∷ xs) i = go (p y) refl (In-of-keep x xs) i
    where
      go :
          (b : Bool)
          → p y ≡ b
          → (In x (keep p xs) → In x xs × (p x ≡ true))
          → In x (if b then y ∷ keep p xs else keep p xs)
          → In x (y ∷ xs) × (p x ≡ true)
      go true passes later (inl e) = (inl e, rw (← e) passes)
      go true passes later (inr j) = (inr (later j).0, (later j).1)
      go false passes later j = (inr (later j).0, (later j).1)

module _ {A : Type 0} (p q : A → Bool) where
  -- Keeping what a weaker test kept already.
  pub keep-keep :
      ((x : A) → q x ≡ true → p x ≡ true) → (xs : List A) → keep q (keep p xs) ≡ keep q xs
  keep-keep h [] = refl
  keep-keep h (x ∷ xs) = ground (arith, h x, keep-keep h xs)

  -- No entry passes both.
  pub keep-keep_none :
      ((x : A) → p x ≡ true → q x ≡ false) → (xs : List A) → keep q (keep p xs) ≡ []
  keep-keep_none h [] = refl
  keep-keep_none h (x ∷ xs) = ground (arith, h x, keep-keep_none h xs)
