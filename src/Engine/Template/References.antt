-- ===== src/Engine/Template/References.antt =====
-- stepRefPattern: its matcher against what the expression says.
use mathlib.Core.Option.{some_inj}
use react_go_workflow.Prelude.{
  ℕ, ◌+◌, ◌≡◌, ◌≢◌, refl, sym, ap, ◌∙◌, true, Option, none, some, [], ◌∷◌, ◌++◌, All, Text, codes,
  arith, length, drop,
}
use react_go_workflow.Engine.Template.{
  Match, Span, span, not_close, in_ref, strip_prefix, match_ref, close_ref, name_ref,
}
use react_go_workflow.Engine.Template.Finding.{IsAnswer}
use react_go_workflow.Engine.Template.Matching.{
  clash, strip_prefix-some, strip_prefix-append, span_append, IsSpan, span-IsSpan, drop_past,
  All-map, closing, not_close_iff, not_close_other,
}

-- A character of a reference.
abbrev pub InName : ℕ → Type 0
InName c = (c ≢ b'.') × (c ≢ b'}')

-- What stands behind {{steps. is a reference, a dot, a path and the end of the expression.
abbrev Behind : (t ref path rest : Text) → Type 0
Behind t ref path rest =
    (t ≡ ref ++ (codes "." ++ (path ++ (codes "}}" ++ rest))))
    × (ref ≢ [])
    × All InName ref
    × All (λ c. c ≢ b'}') path

-- The text begins with a reference to the output of a step: {{steps.ref.path}}, without blanks.
abbrev pub BeginsRef : (s ref rest : Text) → Type 0
BeginsRef s ref rest =
    (path : Text) × (s ≡ codes "{{steps." ++ (ref ++ (codes "." ++ (path ++ (codes "}}" ++ rest)))))
    × (ref ≢ [])
    × All InName ref
    × All (λ c. c ≢ b'}') path

in_ref_iff : (c : ℕ) → InName c → in_ref c ≡ true
in_ref_iff c (n, m) = ground (arith, n, m)

in_ref_other : (c : ℕ) → in_ref c ≡ true → InName c
in_ref_other c h = (ground (arith, h), ground (arith, h))

module _ (t ref path rest : Text) (b : Behind t ref path rest) where
  ref_span :
      span in_ref t ≡ record { front = ref; rest = codes "." ++ (path ++ (codes "}}" ++ rest)) }
  ref_span =
      ap (span in_ref) b.0
      ∙ span_append in_ref ref (codes "." ++ (path ++ (codes "}}" ++ rest)))
          (All-map InName (λ c. in_ref c ≡ true) in_ref_iff ref b.2) refl

  path_span :
      span not_close (path ++ (codes "}}" ++ rest))
      ≡ record { front = path; rest = codes "}}" ++ rest }
  path_span =
      span_append not_close path (codes "}}" ++ rest)
        (All-map (λ c. c ≢ b'}') (λ c. not_close c ≡ true) not_close_iff path b.3) (closing rest)

-- The answer on what stands behind {{steps.
abbrev IsNamed : Text → Option Match → Type 0
IsNamed t none = (ref path rest : Text) → Behind t ref path rest → ⊥
IsNamed t (some m) =
    (path : Text) × (rest : Text) × Behind t m.group path rest
    × (m.more ≡ length m.group + length path + 10)
    × ((ref p r : Text) → Behind t ref p r → (ref ≡ m.group) × (p ≡ path) × (r ≡ rest))

module _ (t c_ref rest : Text) (full : c_ref ≢ [])
    (is : span in_ref t ≡ record { front = c_ref; rest = rest })
    (own : IsSpan in_ref t (record { front = c_ref; rest = rest })) where
  -- What any reading says of the spans.
  read :
      (ref p r : Text)
      → Behind t ref p r
      → (ref ≡ c_ref) × (rest ≡ codes "." ++ (p ++ (codes "}}" ++ r)))
  read ref p r b =
      let same = sym is ∙ ref_span t ref p r b in
      (sym (ap (λ (x : Span). x.front) same), ap (λ (x : Span). x.rest) same)

  close_ref-IsNamed : IsNamed t (close_ref c_ref rest)
  close_ref-IsNamed = dotted (strip_prefix (codes ".") rest) refl
    where
      dotted :
          (o : Option Text)
          → strip_prefix (codes ".") rest ≡ o
          → IsNamed t (elim o [
            | none ↦ none
            | some u ↦ elim (strip_prefix (codes "}}") (span not_close u).rest) [
              | none ↦ none
              | some _ ↦ some (record {
                group = c_ref;
                more = length c_ref + length (span not_close u).front + 10;
              })
            ]
          ])
      dotted none no_dot = λ ref p r b.
          clash no_dot
            (ap (strip_prefix (codes ".")) (read ref p r b).1 ∙ strip_prefix-append (codes ".") _)
      dotted (some u) dot = closed (strip_prefix (codes "}}") (span not_close u).rest) refl
        where
          inner : (ref p r : Text) → Behind t ref p r → u ≡ p ++ (codes "}}" ++ r)
          inner ref p r b = some_inj.0 (
              sym dot
              ∙ ap (strip_prefix (codes ".")) (read ref p r b).1
              ∙ strip_prefix-append (codes ".") _)

          spans :
              (ref p r : Text)
              → Behind t ref p r
              → span not_close u ≡ record { front = p; rest = codes "}}" ++ r }
          spans ref p r b = ap (span not_close) (inner ref p r b) ∙ path_span t ref p r b

          closed :
              (o : Option Text)
              → strip_prefix (codes "}}") (span not_close u).rest ≡ o
              → IsNamed t (elim o [
                | none ↦ none
                | some _ ↦ some (record {
                  group = c_ref;
                  more = length c_ref + length (span not_close u).front + 10;
                })
              ])
          closed none no_close = λ ref p r b. clash no_close (
              ap (λ (x : Span). strip_prefix (codes "}}") x.rest) (spans ref p r b)
              ∙ strip_prefix-append (codes "}}") r)
          closed (some w) close =
              let x = span-IsSpan not_close u in
              (
                (span not_close u).front,
                w,
                (
                  own.whole
                      ∙ ap (λ l. c_ref ++ l)
                          (strip_prefix-some (codes ".") rest u dot
                            ∙ ap (λ l. codes "." ++ l)
                                (x.whole
                                  ∙ ap (λ l. (span not_close u).front ++ l)
                                      (strip_prefix-some (codes "}}") (span not_close u).rest w
                                        close))),
                  full,
                  All-map (λ d. in_ref d ≡ true) InName in_ref_other c_ref own.all,
                  All-map (λ d. not_close d ≡ true) (λ d. d ≢ b'}') not_close_other
                      (span not_close u).front x.all,
                ),
                refl,
                λ ref p r b. (
                  (read ref p r b).0,
                  sym (ap (λ (y : Span). y.front) (spans ref p r b)),
                  some_inj.0 (
                      sym (strip_prefix-append (codes "}}") r)
                      ∙ ap (λ (y : Span). strip_prefix (codes "}}") y.rest) (sym (spans ref p r b))
                      ∙ close),
                ),
              )

name_ref-IsNamed :
    (t front rest : Text)
    → span in_ref t ≡ record { front = front; rest = rest }
    → IsSpan in_ref t (record { front = front; rest = rest })
    → IsNamed t (name_ref front rest)
name_ref-IsNamed t [] rest is own =
    λ ref p r b. b.1 (sym (ap (λ (x : Span). x.front) (sym is ∙ ref_span t ref p r b)))
name_ref-IsNamed t (c ∷ ref) rest is own = close_ref-IsNamed t (c ∷ ref) rest (λ e. cc) is own

passes :
    (ref path rest : Text)
    → drop
        (length ref + length path + 10)
        (codes "{steps." ++ (ref ++ (codes "." ++ (path ++ (codes "}}" ++ rest)))))
      ≡ rest
passes ref path rest =
    drop_past (codes "{steps.") _ _ (length ref + (length path + 3))
      (sum (length ref) (length path))
    ∙ drop_past ref _ _ (length path + 3) refl
    ∙ drop_past (codes ".") _ _ (length path + 2) (one (length path))
    ∙ drop_past path (codes "}}" ++ rest) (length path + 2) 2 refl
  where
    sum : (m n : ℕ) → m + n + 10 ≡ 7 + (m + (n + 3))
    sum m n = omega arith

    one : (n : ℕ) → n + 3 ≡ 1 + (n + 2)
    one n = omega arith

pub match_ref-IsAnswer : (s : Text) → IsAnswer BeginsRef s (match_ref s)
unfolding match_ref
match_ref-IsAnswer s = go (strip_prefix (codes "{{steps.") s) refl
  where
    go :
        (o : Option Text)
        → strip_prefix (codes "{{steps.") s ≡ o
        → IsAnswer BeginsRef s
            (elim o [ none ↦ none | some t ↦ name_ref (span in_ref t).front (span in_ref t).rest ])
    go none is = λ h r b.
        clash is
          (ap (strip_prefix (codes "{{steps.")) b.1 ∙ strip_prefix-append (codes "{{steps.") _)
    go (some t) is =
        named (name_ref (span in_ref t).front (span in_ref t).rest) (
          name_ref-IsNamed t (span in_ref t).front (span in_ref t).rest refl (span-IsSpan in_ref t))
      where
        inside : (h r : Text) → (b : BeginsRef s h r) → Behind t h b.0 r
        inside h r (path, b, full, all, closed) = (
          some_inj.0 (
              sym is
              ∙ ap (strip_prefix (codes "{{steps.")) b
              ∙ strip_prefix-append (codes "{{steps.") _),
          full,
          all,
          closed,
        )

        named : (o : Option Match) → IsNamed t o → IsAnswer BeginsRef s o
        named none a = λ h r b. a h b.0 r (inside h r b)
        named (some m) (path, rest, b, more, only) =
            let tail =
              codes "{steps." ++ (m.group ++ (codes "." ++ (path ++ (codes "}}" ++ rest)))) in
            let passed : drop m.more tail ≡ rest =
              ap (λ k. drop k tail) more ∙ passes m.group path rest in
            let begins : s ≡ b'{' ∷ tail =
              strip_prefix-some (codes "{{steps.") s t is ∙ ap (λ l. codes "{{steps." ++ l) b.0 in
            (
              b'{',
              tail,
              begins,
              (
                path,
                begins
                    ∙ ap
                        (λ l.
                          codes "{{steps."
                          ++ (m.group ++ (codes "." ++ (path ++ (codes "}}" ++ l)))))
                        (sym passed),
                b.1,
                b.2,
                b.3,
              ),
              λ h r x. let same = only h x.0 r (inside h r x) in (same.0, same.2 ∙ sym passed),
            )
