-- ===== src/Prelude/Maps.antt =====
-- Go's maps with UUID keys, as functions that give the zero value on a missing key.
use Prim.Native.Nat.{ℕ}
use react_go_workflow.Prelude.Tests.{◌==◌, if◌then◌else◌}

module _ {ℓ} {V : Type ℓ} where
  -- m[k] = v
  abbrev pub update : (ℕ → V) → ℕ → V → ℕ → V
  update m k v j = if k == j then v else m j
