-- ===== src/Engine/Template/Matching.antt =====
-- The matchers of the regular expressions for references to steps and to secrets, against what the expressions
-- say.
use mathlib.Core.Option.{some_inj}
use react_go_workflow.Prelude.{
  ℕ, zero, suc, ◌+◌, ◌≡◌, ◌≢◌, refl, sym, ap, ◌∙◌, Bool, true, false, Bool-cases, inl, inr, Option,
  none, some, List, [], ◌∷◌, ◌++◌, All, Text, codes, ◌==◌, ==_refl, ==_iff, arith, length, drop,
}
use react_go_workflow.Engine.Template.{Span, span, not_close, strip_prefix}

pub clash {ℓ} : {A : Type ℓ} {a : A} {o : Option A} → o ≡ none → o ≡ some a → ⊥
clash p q = absurd cc

pub strip_prefix-some : (p s t : Text) → strip_prefix p s ≡ some t → s ≡ p ++ t
unfolding strip_prefix
strip_prefix-some [] s t is = some_inj.0 is
strip_prefix-some (c ∷ p) [] t is = absurd cc
strip_prefix-some (c ∷ p) (d ∷ s) t is = elim (Bool-cases (c == d)) [
  | inl hit ↦
      ap (λ x. x ∷ s) (sym ((==_iff c d).0 hit))
      ∙ ap (λ l. c ∷ l) (strip_prefix-some p s t (rw hit at is))
  | inr miss ↦ absurd (no_way (rw miss at is))
]
  where
    no_way : {A : Type 0} {a : A} → none ≡ some a → ⊥
    no_way e = absurd cc

pub strip_prefix-append : (p t : Text) → strip_prefix p (p ++ t) ≡ some t
unfolding strip_prefix
strip_prefix-append [] t = refl
strip_prefix-append (c ∷ p) t = rw (==_refl c) (strip_prefix-append p t)

-- A text that the test takes no character of.
abbrev pub Stops : (ℕ → Bool) → Text → Type 0
Stops p [] = Unit
Stops p (c ∷ s) = p c ≡ false

pub span_append :
    (p : ℕ → Bool) (a b : Text)
    → All (λ c. p c ≡ true) a
    → Stops p b
    → span p (a ++ b) ≡ record { front = a; rest = b }
unfolding span
span_append p [] [] all stops = refl
span_append p [] (c ∷ b) all stops = rw stops refl
span_append p (c ∷ a) b all stops = rw (all.0) (
    ap (λ (x : Span). record { front = c ∷ x.front; rest = x.rest })
      (span_append p a b all.1 stops))

-- What a span is: it stands at the front, and all its characters pass.
pub record IsSpan (p : ℕ → Bool) (s : Text) (x : Span) : Type 0 where
  pub whole : s ≡ x.front ++ x.rest
  pub all : All (λ c. p c ≡ true) x.front

pub span-IsSpan : (p : ℕ → Bool) (s : Text) → IsSpan p s (span p s)
unfolding span
span-IsSpan p [] = record { whole = refl; all = tt }
span-IsSpan p (c ∷ s) = elim (Bool-cases (p c)) [
  | inl yes' ↦
      let later = span-IsSpan p s in
      rw yes' (record { whole = ap (λ l. c ∷ l) later.whole; all = (yes', later.all) })
  | inr no' ↦ rw no' (record { whole = refl; all = tt })
]

pub drop_past : (a b : Text) (k n : ℕ) → k ≡ length a + n → drop k (a ++ b) ≡ drop n b
drop_past [] b k n is = ap (λ i. drop i b) (omega (arith, is))
drop_past (c ∷ a) b zero n is = absurd (omega (arith, is))
drop_past (c ∷ a) b (suc k) n is = drop_past a b k n (omega (arith, is))

pub All-map :
    {A : Type 0} (P Q : A → Type 0) → ((a : A) → P a → Q a) → (l : List A) → All P l → All Q l
All-map P Q f [] h = tt
All-map P Q f (a ∷ l) h = (f a h.0, All-map P Q f l h.1)

pub closing : (rest : Text) → Stops not_close (codes "}}" ++ rest)
closing rest = refl

pub not_close_iff : (c : ℕ) → c ≢ b'}' → not_close c ≡ true
not_close_iff c n = ground (arith, n)

pub not_close_other : (c : ℕ) → not_close c ≡ true → c ≢ b'}'
not_close_other c h = ground (arith, h)
