-- ===== src/Engine/Template/Finding.antt =====
-- What FindAllStringSubmatch finds, said of the text and not of a matcher: matches are leftmost and do not
-- overlap.
use mathlib.Core.List.{tail-eq_of_cons-eq}
use react_go_workflow.Prelude.{
  ℕ, zero, suc, ◌≤◌, length, arith, ◌≡◌, refl, sym, ap, ◌∙◌, subst, ◌⊎◌, inl, inr, ◌↔◌, Option,
  none, some, [], ◌∷◌, In, Text, drop,
}
use react_go_workflow.Value.{
  Value, null, nil_object, bool, int, float, string, object, array, Items, nil, cons, Fields, end,
  field,
}
use react_go_workflow.Engine.Template.{Match, lit, hit, scan, hits}

-- The text begins with a match, whose group is g and behind which the rest stands.
abbrev pub Shape : Type 1
Shape = (s g rest : Text) → Type 0

-- One of the matches in a text has the group g.
pub data Finds (Begins : Shape) (g : Text) : Text → Type 0 where
  here : (s rest : Text) → Begins s g rest → Finds Begins g s
  behind : (s h rest : Text) → Begins s h rest → Finds Begins g rest → Finds Begins g s
  later :
      (c : ℕ) (s : Text)
      → ((h rest : Text) → Begins (c ∷ s) h rest → ⊥)
      → Finds Begins g s
      → Finds Begins g (c ∷ s)

-- What a matcher says of the beginning of a text.
abbrev pub IsAnswer : Shape → Text → Option Match → Type 0
IsAnswer Begins s none = (h rest : Text) → Begins s h rest → ⊥
IsAnswer Begins s (some m) =
    (c : ℕ) × (t : Text) × (s ≡ c ∷ t)
    × Begins s m.group (drop m.more t)
    × ((h rest : Text) → Begins s h rest → (h ≡ m.group) × (rest ≡ drop m.more t))

module _ (Begins : Shape) (m : Text → Option Match)
    (correct : (s : Text) → IsAnswer Begins s (m s)) where
  scan-drop : (k : ℕ) (s : Text) → scan m k s ≡ scan m 0 (drop k s)
  unfolding scan
  scan-drop zero s = refl
  scan-drop (suc k) [] = refl
  scan-drop (suc k) (c ∷ s) = scan-drop k s

  -- The scan of a text that a character begins.
  abbrev First : (g : Text) → ℕ → Text → Option Match → Type 0
  First g c s none = In g (hits (scan m 0 s))
  First g c s (some f) = (f.group ≡ g) ⊎ In g (hits (scan m 0 (drop f.more s)))

  scan-First :
      (g : Text) (c : ℕ) (s : Text) → In g (hits (scan m 0 (c ∷ s))) ↔ First g c s (m (c ∷ s))
  unfolding scan hits
  scan-First g c s = go (m (c ∷ s)) refl
    where
      go :
          (o : Option Match)
          → m (c ∷ s) ≡ o
          → In g
              (hits (elim o [ none ↦ lit c ∷ scan m 0 s | some f ↦ hit f.group ∷ scan m f.more s ]))
            ↔ First g c s o
      go none is = (λ i. i, λ i. i)
      go (some f) is = (λ i. there i, λ i. back i)
        where
          there :
              (f.group ≡ g) ⊎ In g (hits (scan m f.more s))
              → (f.group ≡ g) ⊎ In g (hits (scan m 0 (drop f.more s)))
          there (inl e) = inl e
          there (inr i) = inr (subst (λ l. In g (hits l)) (scan-drop f.more s) i)

          back :
              (f.group ≡ g) ⊎ In g (hits (scan m 0 (drop f.more s)))
              → (f.group ≡ g) ⊎ In g (hits (scan m f.more s))
          back (inl e) = inl e
          back (inr i) = inr (subst (λ l. In g (hits l)) (sym (scan-drop f.more s)) i)

  cons_full : {c : ℕ} {t : Text} → c ∷ t ≡ [] → ⊥
  cons_full e = absurd cc

  -- No match begins an empty text.
  none_empty : (h rest : Text) → Begins [] h rest → ⊥
  none_empty h rest = go (m []) (correct [])
    where
      go : (o : Option Match) → IsAnswer Begins [] o → Begins [] h rest → ⊥
      go none a b = a h rest b
      go (some f) (c, t, is, own, only) b = absurd (cons_full (sym is))

  -- Every match is a hit of the scan.
  pub Finds-hits : (g s : Text) → Finds Begins g s → In g (hits (scan m 0 s))
  Finds-hits g [] (here s rest b) = absurd (none_empty g rest b)
  Finds-hits g [] (behind s h rest b f) = absurd (none_empty h rest b)
  Finds-hits g (c ∷ s) (here _ rest b) = (scan-First g c s).1 (go (m (c ∷ s)) (correct (c ∷ s)))
    where
      go : (o : Option Match) → IsAnswer Begins (c ∷ s) o → First g c s o
      go none a = absurd (a g rest b)
      go (some f) (d, t, is, own, only) = inl (sym (only g rest b).0)
  Finds-hits g (c ∷ s) (behind _ h rest b found) =
      (scan-First g c s).1 (go (m (c ∷ s)) (correct (c ∷ s)) (Finds-hits g rest found))
    where
      go :
          (o : Option Match)
          → IsAnswer Begins (c ∷ s) o
          → In g (hits (scan m 0 rest))
          → First g c s o
      go none a i = absurd (a h rest b)
      go (some f) (d, t, is, own, only) i = inr (
          subst (λ x. In g (hits (scan m 0 x)))
            ((only h rest b).1 ∙ ap (drop f.more) (sym (tail-eq_of_cons-eq is))) i)
  Finds-hits g (c ∷ s) (later _ _ no_match found) =
      (scan-First g c s).1 (go (m (c ∷ s)) (correct (c ∷ s)) (Finds-hits g s found))
    where
      go : (o : Option Match) → IsAnswer Begins (c ∷ s) o → In g (hits (scan m 0 s)) → First g c s o
      go none a i = i
      go (some f) (d, t, is, own, only) i = absurd (no_match f.group (drop f.more t) own)

  length-drop : (k : ℕ) (s : Text) → length (drop k s) ≤ length s
  length-drop zero s = omega arith
  length-drop (suc k) [] = omega arith
  length-drop (suc k) (c ∷ s) = omega (arith, length-drop k s)

  hits-Finds_within :
      (n : ℕ) (g s : Text) → length s ≤ n → In g (hits (scan m 0 s)) → Finds Begins g s
  unfolding scan hits
  hits-Finds_within n g [] h i = absurd i
  hits-Finds_within zero g (c ∷ s) h i = absurd (omega (arith, h))
  hits-Finds_within (suc n) g (c ∷ s) h i =
      go (m (c ∷ s)) (correct (c ∷ s)) (λ t le j. hits-Finds_within n g t le j)
        ((scan-First g c s).0 i)
    where
      go :
          (o : Option Match)
          → IsAnswer Begins (c ∷ s) o
          → ((t : Text) → length t ≤ n → In g (hits (scan m 0 t)) → Finds Begins g t)
          → First g c s o
          → Finds Begins g (c ∷ s)
      go none a rest j = later c s a (rest s (omega (arith, h)) j)
      go (some f) (d, t, is, own, only) rest (inl e) =
          here (c ∷ s) (drop f.more t) (subst (λ x. Begins (c ∷ s) x (drop f.more t)) e own)
      go (some f) (d, t, is, own, only) rest (inr j) = behind (c ∷ s) f.group (drop f.more t) own (
          rest (drop f.more t)
            (omega (arith, h, length-drop f.more t, ap length (tail-eq_of_cons-eq is)))
            (subst (λ x. In g (hits (scan m 0 (drop f.more x)))) (tail-eq_of_cons-eq is) j))

  -- And every hit is a match.
  pub hits-Finds : (g s : Text) → In g (hits (scan m 0 s)) → Finds Begins g s
  hits-Finds g s = hits-Finds_within (length s) g s (omega arith)

-- Some text in a value has a property.
module _ (P : Text → Type 0) where
  unfoldable mutual
    pub SomeText : Value → Type 0
    SomeText (string s) = P s
    SomeText (object f) = SomeField f
    SomeText (array l) = SomeItem l
    SomeText null = ⊥
    SomeText nil_object = ⊥
    SomeText (bool b) = ⊥
    SomeText (int n) = ⊥
    SomeText (float x) = ⊥

    pub SomeItem : Items → Type 0
    SomeItem nil = ⊥
    SomeItem (cons v l) = SomeText v ⊎ SomeItem l

    pub SomeField : Fields → Type 0
    SomeField end = ⊥
    SomeField (field j v f) = SomeText v ⊎ SomeField f
