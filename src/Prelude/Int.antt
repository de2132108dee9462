-- ===== src/Prelude/Int.antt =====
-- Go's `int`, a signed number. The counters of the program stay far from the 64-bit bounds; where a number
-- comes from a request, the operation is the one of 64 bits.
use Prim.Native.Nat.{ℕ, zero, suc, ◌-◌, ◌^◌}
use mathlib.Core.Bool.{Bool, true, false}
use react_go_workflow.Prelude.Tests.{ltb, if◌then◌else◌}

-- `negsuc n` is -(n + 1).
pub data ℤ : Type 0 where
  pos : ℕ → ℤ
  negsuc : ℕ → ℤ

-- n++
abbrev pub suc_ℤ : ℤ → ℤ
suc_ℤ (pos n) = pos (suc n)
suc_ℤ (negsuc zero) = pos 0
suc_ℤ (negsuc (suc n)) = negsuc n

-- n + 1 in 64 bits
abbrev pub wrapping_suc : ℤ → ℤ
wrapping_suc (pos n) = if ltb n (2 ^ 63 - 1) then pos (suc n) else negsuc n
wrapping_suc (negsuc n) = suc_ℤ (negsuc n)

-- n--
abbrev pub pred_ℤ : ℤ → ℤ
pred_ℤ (pos zero) = negsuc 0
pred_ℤ (pos (suc n)) = pos n
pred_ℤ (negsuc n) = negsuc (suc n)

-- n > 0
abbrev pub is_positive : ℤ → Bool
is_positive (pos zero) = false
is_positive (pos (suc n)) = true
is_positive (negsuc n) = false

-- The number of rounds of `for i := 1; i <= n; i++`.
abbrev pub rounds : ℤ → ℕ
rounds (pos n) = n
rounds (negsuc n) = 0
