-- ===== src/Shared/Numbers.antt =====
-- itoa of internal/shared/validation.go, and strconv.Atoi, which internal/shared/http.go calls.
pub mod Laws
use react_go_workflow.Prelude.{
  ℕ, zero, suc, ◌+◌, ◌-◌, ◌*◌, ◌/◌, ◌%◌, ◌^◌, ℤ, pos, negsuc, Bool, ◌&&◌, Option, none, some, [],
  ◌∷◌, Text, codes, ltb, leb, ◌==◌, if◌then◌else◌,
}

-- The loop of itoa, which fills its buffer from the end. The first number is `pos`, the places that are
-- free; without a free place the program panics, which is `none`.
unfoldable pub fill_digits : ℕ → ℕ → Text → Option Text
fill_digits zero n out = if n == 0 then some out else none
fill_digits (suc left) n out =
    let rest = fill_digits left (n / 10) ((48 + n % 10) ∷ out) in if n == 0 then some out else rest

unfoldable pub itoa : ℤ → Option Text
unfolding fill_digits
itoa (negsuc n) = some []
itoa (pos n) = if n == 0 then some (codes "0") else fill_digits 20 n []

-- The number that decimal digits add to a number in front of them.
unfoldable pub read_digits : Text → ℕ → Option ℕ
read_digits [] n = some n
read_digits (c ∷ s) n =
    let rest = read_digits s (10 * n + (c - 48)) in if leb 48 c && leb c 57 then rest else none

abbrev magnitude : Text → Option ℕ
magnitude [] = none
magnitude (c ∷ s) = read_digits (c ∷ s) 0

abbrev minus : ℕ → ℤ
minus zero = pos 0
minus (suc n) = negsuc n

abbrev positive : Option ℕ → Option ℤ
positive none = none
positive (some n) = if ltb n (2 ^ 63) then some (pos n) else none

abbrev negative : Option ℕ → Option ℤ
negative none = none
negative (some n) = if leb n (2 ^ 63) then some (minus n) else none

-- strconv.Atoi for an int of 64 bits.
unfoldable pub atoi : Text → Option ℤ
unfolding read_digits
atoi [] = none
atoi (c ∷ s) =
    if c == b'-'
    then negative (magnitude s)
    else if c == b'+'
    then positive (magnitude s)
    else positive (magnitude (c ∷ s))
