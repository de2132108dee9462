-- ===== src/Shared/Numbers/Laws.antt =====
-- itoa writes what Atoi reads.
use react_go_workflow.Prelude.{
  ℕ, zero, suc, ◌+◌, ◌*◌, ◌/◌, ◌%◌, ◌^◌, ◌≤◌, ◌<◌, ◌≡◌, ◌≢◌, refl, sym, ap, ◌∙◌, inl, inr, pos,
  true, false, ◌&&◌, Option, some, [], ◌∷◌, Text, codes, leb, ◌==◌, arith, All, Bool-cases,
}
use mathlib.Core.Option.{some_inj}
use react_go_workflow.Shared.Numbers.{fill_digits, itoa, read_digits, atoi, positive}

abbrev ten_to : ℕ → ℕ
ten_to zero = 1
ten_to (suc k) = 10 * ten_to k

abbrev IsDigits : Text → Type 0
IsDigits = All (λ c. 48 ≤ c)

-- What the loop leaves: digits, which read back as the number in front of what was there.
record Filled (n : ℕ) (out : Text) (o : Option Text) : Type 0 where
  text : Text
  went : o ≡ some text
  digits : IsDigits text
  reads : read_digits text 0 ≡ read_digits out n

-- With nothing left to write.
nothing_left : (n : ℕ) (out : Text) → (n == 0) ≡ true → IsDigits out → Filled n out (some out)
nothing_left n out e d = record {
  text = out;
  went = refl;
  digits = d;
  reads = ap (read_digits out) (ground (arith, e));
}

-- A digit in front is read first.
read_digit : (n : ℕ) (out : Text) → read_digits ((48 + n % 10) ∷ out) (n / 10) ≡ read_digits out n
unfolding read_digits
read_digit n out = rw digit (ap (read_digits out) (omega arith))
  where
    digit : (leb 48 (48 + n % 10) && leb (48 + n % 10) 57) ≡ true
    digit = ground arith

fill_digits-Filled :
    (left n : ℕ) (out : Text)
    → n < ten_to left
    → IsDigits out
    → Filled n out (fill_digits left n out)
unfolding fill_digits
fill_digits-Filled zero n out b d = rw (is_zero n b) (nothing_left n out (is_zero n b) d)
  where
    is_zero : (n : ℕ) → n < 1 → (n == 0) ≡ true
    is_zero n b = ground arith
fill_digits-Filled (suc left) n out b d = elim (Bool-cases (n == 0)) [
  | inl done ↦ rw done (nothing_left n out done d)
  | inr more ↦
      let rest =
        fill_digits-Filled left (n / 10) ((48 + n % 10) ∷ out) (omega arith) (omega arith, d) in
      rw more (record {
        text = rest.text;
        went = rest.went;
        digits = rest.digits;
        reads = rest.reads ∙ read_digit n out;
      })
]

atoi-digits :
    (s : Text) (n : ℕ)
    → IsDigits s
    → s ≢ []
    → read_digits s 0 ≡ some n
    → n < 2 ^ 63
    → atoi s ≡ some (pos n)
unfolding atoi
atoi-digits [] n d full e b = absurd (full refl)
atoi-digits (c ∷ s) n d full e b =
    let is : positive (some n) ≡ some (pos n) = ground (arith, b) in
    rw (no_minus, no_plus) (ap positive e ∙ is)
  where
    no_minus : (c == 45) ≡ false
    no_minus = ground (arith, d.0)

    no_plus : (c == 43) ≡ false
    no_plus = ground (arith, d.0)

itoa_zero : (n : ℕ) → (n == 0) ≡ true → itoa (pos n) ≡ some (codes "0")
unfolding itoa
itoa_zero n e = rw e refl

itoa_more : (n : ℕ) → (n == 0) ≡ false → itoa (pos n) ≡ fill_digits 20 n []
unfolding itoa
itoa_more n e = rw e refl

read_zero : (n : ℕ) → (n == 0) ≡ true → atoi (codes "0") ≡ some (pos n)
unfolding atoi
read_zero n e = ap (λ k. some (pos k)) (is_zero n e)
  where
    is_zero : (n : ℕ) → (n == 0) ≡ true → 0 ≡ n
    is_zero n e = ground (arith, e)

read_nothing : (n : ℕ) → read_digits [] n ≡ some n
unfolding read_digits
read_nothing n = refl

-- For every int that is not negative itoa stays within its buffer of 20 characters, and writes what Atoi
-- reads as the same number.
pub atoi-itoa :
    (n : ℕ) → n < 2 ^ 63 → (s : Text) × (itoa (pos n) ≡ some s) × (atoi s ≡ some (pos n))
atoi-itoa n b = elim (Bool-cases (n == 0)) [
  | inl none' ↦ (codes "0", itoa_zero n none', read_zero n none')
  | inr some' ↦
      let filled = fill_digits-Filled 20 n [] (omega arith) tt in
      let reads = filled.reads ∙ read_nothing n in
      (
        filled.text,
        itoa_more n some' ∙ filled.went,
        atoi-digits filled.text n filled.digits
            (λ empty. nonzero some' (sym reads ∙ ap (λ s. read_digits s 0) empty ∙ read_nothing 0))
            reads b,
      )
]
  where
    nonzero : (n == 0) ≡ false → some n ≡ some 0 → ⊥
    nonzero f e = ground (arith, f, some_inj.0 e)
