-- ===== src/Ai/Enrich/Matching.antt =====
-- The regular expression of scanForSecrets: its matcher against what the expression says.
use mathlib.Core.Option.{some_inj}
use react_go_workflow.Prelude.{
  ℕ, ◌+◌, ◌≡◌, ◌≢◌, refl, sym, ap, ◌∙◌, true, Option, none, some, [], ◌∷◌, ◌++◌, All, Text, codes,
  arith, length, drop,
}
use react_go_workflow.Engine.Template.{Match, Span, span, not_close, strip_prefix}
use react_go_workflow.Engine.Template.Finding.{IsAnswer}
use react_go_workflow.Engine.Template.Matching.{
  clash, strip_prefix-some, strip_prefix-append, span_append, IsSpan, span-IsSpan, drop_past,
  All-map, closing, not_close_iff, not_close_other,
}
use react_go_workflow.Ai.Enrich.{match_secret, close_secret}

-- The text begins with a reference to a secret: {{secrets.key}}, without blanks.
abbrev pub BeginsSecret : (s key rest : Text) → Type 0
BeginsSecret s key rest =
    (s ≡ codes "{{secrets." ++ (key ++ (codes "}}" ++ rest))) × (key ≢ []) × All (λ c. c ≢ b'}') key

-- What stands behind {{secrets.
abbrev Behind : (t key rest : Text) → Type 0
Behind t key rest = (t ≡ key ++ (codes "}}" ++ rest)) × (key ≢ []) × All (λ c. c ≢ b'}') key

Behind-span :
    (t key rest : Text)
    → Behind t key rest
    → span not_close t ≡ record { front = key; rest = codes "}}" ++ rest }
Behind-span t key rest (is, full, all) =
    ap (span not_close) is
    ∙ span_append not_close key (codes "}}" ++ rest)
        (All-map (λ c. c ≢ b'}') (λ c. not_close c ≡ true) not_close_iff key all) (closing rest)

-- The answer on what stands behind {{secrets.
abbrev IsClosed : Text → Option Match → Type 0
IsClosed t none = (key rest : Text) → Behind t key rest → ⊥
IsClosed t (some m) =
    (rest : Text) × Behind t m.group rest
    × (m.more ≡ length m.group + 11)
    × ((key r : Text) → Behind t key r → (key ≡ m.group) × (r ≡ rest))

close_secret-IsClosed :
    (t : Text) (x : Span)
    → span not_close t ≡ x
    → IsSpan not_close t x
    → IsClosed t (close_secret x.front x.rest)
close_secret-IsClosed t x is own = go x.front x.rest is own
  where
    go :
        (front rest : Text)
        → span not_close t ≡ record { front = front; rest = rest }
        → IsSpan not_close t (record { front = front; rest = rest })
        → IsClosed t (close_secret front rest)
    go [] rest is own =
        λ key r b. b.1 (sym (ap (λ (x : Span). x.front) (sym is ∙ Behind-span t key r b)))
    go (c ∷ key) rest is own = stripped (strip_prefix (codes "}}") rest) refl
      where
        stripped :
            (o : Option Text)
            → strip_prefix (codes "}}") rest ≡ o
            → IsClosed t (elim o [
              | none ↦ none
              | some _ ↦ some (record { group = c ∷ key; more = length (c ∷ key) + 11 })
            ])
        stripped none no_close = λ k r b. clash no_close (
            ap (λ (x : Span). strip_prefix (codes "}}") x.rest) (sym is ∙ Behind-span t k r b)
            ∙ strip_prefix-append (codes "}}") r)
        stripped (some u) closed = (
          u,
          (
            own.whole ∙ ap (λ l. (c ∷ key) ++ l) (strip_prefix-some (codes "}}") rest u closed),
            (λ e. cc),
            All-map (λ d. not_close d ≡ true) (λ d. d ≢ b'}') not_close_other (c ∷ key) own.all,
          ),
          refl,
          λ k r b.
              let same = sym is ∙ Behind-span t k r b in
              (
                sym (ap (λ (x : Span). x.front) same),
                some_inj.0 (
                    sym (strip_prefix-append (codes "}}") r)
                    ∙ ap (λ (x : Span). strip_prefix (codes "}}") x.rest) (sym same)
                    ∙ closed),
              ),
        )

passes :
    (key rest : Text)
    → drop (length key + 11) (codes "{secrets." ++ (key ++ (codes "}}" ++ rest))) ≡ rest
passes key rest =
    drop_past (codes "{secrets.") (key ++ (codes "}}" ++ rest)) (length key + 11) (length key + 2)
      (sum (length key))
    ∙ drop_past key (codes "}}" ++ rest) (length key + 2) 2 refl
  where
    sum : (n : ℕ) → n + 11 ≡ 9 + (n + 2)
    sum n = omega arith

pub match_secret-IsAnswer : (s : Text) → IsAnswer BeginsSecret s (match_secret s)
unfolding match_secret
match_secret-IsAnswer s = go (strip_prefix (codes "{{secrets.") s) refl
  where
    go :
        (o : Option Text)
        → strip_prefix (codes "{{secrets.") s ≡ o
        → IsAnswer BeginsSecret s (elim o [
          | none ↦ none
          | some t ↦ close_secret (span not_close t).front (span not_close t).rest
        ])
    go none is = λ h r b.
        clash is
          (ap (strip_prefix (codes "{{secrets.")) b.0 ∙ strip_prefix-append (codes "{{secrets.") _)
    go (some t) is =
        closed (close_secret (span not_close t).front (span not_close t).rest)
          (close_secret-IsClosed t (span not_close t) refl (span-IsSpan not_close t))
      where
        inside : (h r : Text) → BeginsSecret s h r → Behind t h r
        inside h r (b, full, all) = (
          some_inj.0 (
              sym is
              ∙ ap (strip_prefix (codes "{{secrets.")) b
              ∙ strip_prefix-append (codes "{{secrets.") _),
          full,
          all,
        )

        closed : (o : Option Match) → IsClosed t o → IsAnswer BeginsSecret s o
        closed none a = λ h r b. a h r (inside h r b)
        closed (some m) (rest, b, more, only) =
            let tail = codes "{secrets." ++ (m.group ++ (codes "}}" ++ rest)) in
            let passed : drop m.more tail ≡ rest =
              ap (λ k. drop k tail) more ∙ passes m.group rest in
            let begins : s ≡ b'{' ∷ tail =
              strip_prefix-some (codes "{{secrets.") s t is
              ∙ ap (λ l. codes "{{secrets." ++ l) b.0 in
            (
              b'{',
              tail,
              begins,
              (
                begins
                    ∙ ap (λ l. codes "{{secrets." ++ (m.group ++ (codes "}}" ++ l))) (sym passed),
                b.1,
                b.2,
              ),
              λ h r x. let same = only h r (inside h r x) in (same.0, same.1 ∙ sym passed),
            )
