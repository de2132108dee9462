-- ===== src/Executions/Splitting.antt =====
-- strings.Index on the colon and the comma of a filter finds the first one, and operands splits there.
use mathlib.Core.List.{head-eq_of_cons-eq, tail-eq_of_cons-eq}
use react_go_workflow.Prelude.{
  ℕ, ◌≡◌, ◌≢◌, refl, sym, ap, ◌∙◌, subst, inl, inr, Bool-cases, Option, none, some, [], ◌∷◌, Text,
  ◌==◌, ==_iff, arith,
}
use react_go_workflow.Executions.Filters.{cut, colon, operands}
use react_go_workflow.Executions.Meaning.{IsCut, Splits, with_operator, without}

module _ (sep : ℕ) where
  -- What the search for a separator says.
  abbrev pub Cuts : Text → Option (Text × Text) → Type 0
  Cuts s none = (before behind : Text) → IsCut sep s before behind → ⊥
  Cuts s (some (a, b)) =
      IsCut sep s a b
      × ((before behind : Text) → IsCut sep s before behind → (before ≡ a) × (behind ≡ b))

  cut_first : (c : ℕ) (s : Text) → c ≡ sep → Cuts (c ∷ s) (some ([], s))
  cut_first c s is = ((ap (λ x. x ∷ s) is, tt), only)
    where
      only : (before behind : Text) → IsCut sep (c ∷ s) before behind → (before ≡ []) × (behind ≡ s)
      only [] behind (e, all) = (refl, sym (tail-eq_of_cons-eq e))
      only (d ∷ before) behind (e, all) = absurd (all.0 (sym (head-eq_of_cons-eq e) ∙ is))

  cut_later :
      (c : ℕ) (s : Text) (o : Option (Text × Text))
      → c ≢ sep
      → Cuts s o
      → Cuts (c ∷ s) (elim o [ none ↦ none | some (before, behind) ↦ some (c ∷ before, behind) ])
  cut_later c s none other h = never
    where
      never : (before behind : Text) → IsCut sep (c ∷ s) before behind → ⊥
      never [] behind (e, all) = other (head-eq_of_cons-eq e)
      never (d ∷ before) behind (e, all) = h before behind (tail-eq_of_cons-eq e, all.1)
  cut_later c s (some (a, b)) other ((is, all), only) = ((ap (λ l. c ∷ l) is, (other, all)), same)
    where
      same :
          (before behind : Text) → IsCut sep (c ∷ s) before behind → (before ≡ c ∷ a) × (behind ≡ b)
      same [] behind (e, own) = absurd (other (head-eq_of_cons-eq e))
      same (d ∷ before) behind (e, own) =
          let rest = only before behind (tail-eq_of_cons-eq e, own.1) in
          (ap (λ x. x ∷ before) (sym (head-eq_of_cons-eq e)) ∙ ap (λ l. c ∷ l) rest.0, rest.1)

  pub cut-Cuts : (s : Text) → Cuts s (cut sep s)
  unfolding cut
  cut-Cuts [] = never
    where
      never : (before behind : Text) → IsCut sep [] before behind → ⊥
      never [] behind (e, all) = absurd cc
      never (d ∷ before) behind (e, all) = absurd cc
  cut-Cuts (c ∷ s) = elim (Bool-cases (c == sep)) [
    | inl hit ↦ rw (hit, cut) (cut_first c s ((==_iff c sep).0 hit))
    | inr miss ↦ rw (miss, cut) (cut_later c s (cut sep s) (ground (arith, miss)) (cut-Cuts s))
  ]

  pub cut-IsCut : (s a b : Text) → cut sep s ≡ some (a, b) → IsCut sep s a b
  cut-IsCut s a b is = (subst (Cuts s) is (cut-Cuts s)).0

  pub IsCut-cut : (s a b : Text) → IsCut sep s a b → cut sep s ≡ some (a, b)
  IsCut-cut s a b own = go (cut sep s) (cut-Cuts s)
    where
      go : (o : Option (Text × Text)) → Cuts s o → o ≡ some (a, b)
      go none never = absurd (never a b own)
      go (some (x, y)) h =
          let same = h.1 a b own in
          ap (λ l. some (l, y)) (sym same.0) ∙ ap (λ l. some (a, l)) (sym same.1)

-- The operator and the value that the code reads.
abbrev pub operator_of : Text → Text
operator_of raw = (operands raw (cut colon raw)).0

abbrev pub value_of : Text → Text
value_of raw = (operands raw (cut colon raw)).1

abbrev Read : Text → Option (Text × Text) → Type 0
Read raw o =
    Splits raw (operands raw o).0 (operands raw o).1
    × ((op val : Text) → Splits raw op val → (op ≡ (operands raw o).0) × (val ≡ (operands raw o).1))

operands-Read : (raw : Text) (o : Option (Text × Text)) → Cuts colon raw o → Read raw o
operands-Read raw none never = (without (λ op val n c. never op val c), only)
  where
    only : (op val : Text) → Splits raw op val → (op ≡ []) × (val ≡ raw)
    only op val (with_operator _ _ n c) = absurd (never op val c)
    only op val (without no_split) = (refl, refl)
operands-Read raw (some ([], b)) (own, same) = (without (λ op val n c. n (same op val c).0), only)
  where
    only : (op val : Text) → Splits raw op val → (op ≡ []) × (val ≡ raw)
    only op val (with_operator _ _ n c) = absurd (n (same op val c).0)
    only op val (without no_split) = (refl, refl)
operands-Read raw (some (c ∷ a, b)) (own, same) = (with_operator (c ∷ a) b (λ e. cc) own, only)
  where
    only : (op val : Text) → Splits raw op val → (op ≡ c ∷ a) × (val ≡ b)
    only op val (with_operator _ _ n k) = same op val k
    only op val (without no_split) = absurd (no_split (c ∷ a) b (λ e. cc) own)

pub operands-Splits : (raw : Text) → Splits raw (operator_of raw) (value_of raw)
operands-Splits raw = (operands-Read raw (cut colon raw) (cut-Cuts colon raw)).0

pub Splits-operands :
    (raw op val : Text) → Splits raw op val → (op ≡ operator_of raw) × (val ≡ value_of raw)
Splits-operands raw op val = (operands-Read raw (cut colon raw) (cut-Cuts colon raw)).1 op val
