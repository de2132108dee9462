-- ===== src/Engine/Safety/Settled.antt =====
-- A step has settled once it was skipped or its output was recorded. It is done then.
use react_go_workflow.Prelude.{
  ℕ, ◌+◌, ◌≡◌, Bool, true, false, not, ◌||◌, Option, none, some, List, [], ◌∷◌, arith, count_if,
  ◌==◌,
}
use react_go_workflow.Value.{Object}
use react_go_workflow.Engine.Types.{Uuid}
use react_go_workflow.Engine.Graph.{Graph}
use react_go_workflow.Engine.Graph.Balance.{times}
use react_go_workflow.Engine.Skip.{Run}

abbrev pub has_output : Option Object → Bool
has_output none = false
has_output (some o) = true

abbrev pub settled : Run → Uuid → Bool
settled r id = r.skipped id || has_output (r.outputs id)

-- How many dependencies of a step have not settled.
abbrev pub unsettled : Graph → Run → Uuid → ℕ
unsettled g r t = count_if (λ s. not (settled r s)) (g.normal_deps t)

abbrev pub SettledIsDone : Run → Type 0
SettledIsDone r = (id : Uuid) → settled r id ≡ true → r.done id ≡ true

-- Taking one value out of a test takes its occurrences out of the count.
pub count_if-remove :
    (p q : Uuid → Bool) (a : Uuid)
    → p a ≡ true
    → q a ≡ false
    → ((x : Uuid) → (a == x) ≡ false → p x ≡ q x)
    → (xs : List Uuid) → count_if p xs ≡ count_if q xs + times a xs
count_if-remove p q a pa qa same [] = omega arith
count_if-remove p q a pa qa same (x ∷ xs) =
    ground (arith, same x, count_if-remove p q a pa qa same xs)
