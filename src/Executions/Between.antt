-- ===== src/Executions/Between.antt =====
-- parseDateFilter means a range of times, between two dates too.
use mathlib.Core.Option.{some_inj}
use react_go_workflow.Prelude.{
  ℕ, ◌+◌, ◌≤◌, ◌<◌, ◌≡◌, ◌≢◌, refl, sym, ap, ◌∙◌, subst, inl, inr, false, ◌||◌, Option, none, some,
  List, [], ◌∷◌, ◌++◌, Text, codes, text_eq, text_eq_iff, Bool-cases, arith,
}
use react_go_workflow.Executions.Filters.{
  DateField, Predicate, gte, lt, cut, comma, DateError, invalid_date, unknown_operator,
  two_dates_required, bad_date, Parsed, parsed, refused, then_parse, parse_date, day, dated,
  between_dates, parse_date_filter,
}
use react_go_workflow.Executions.Meaning.{InRange, after, before, between, IsIn}
use react_go_workflow.Executions.Splitting.{cut-IsCut, IsCut-cut}
use react_go_workflow.Executions.Dates.{
  Means, clash, after_between, before_between, IsAfter-iff, not_after, NoTime, from_date, to_date,
}

module _ (parse_time parse_day : Text → Option ℕ) (key : Text) (f : DateField) where
  abbrev date : Text → Option ℕ
  date s = parse_date parse_time parse_day s

  abbrev Good : Text → Text → Parsed (List Predicate) → Type 0
  Good op val r =
      Means (IsIn parse_time parse_day f (op, val)) (NoTime parse_time parse_day key f op val) r

  -- A range between two dates.
  record Spans (val : Text) (t : ℕ) : Type 0 where
    from : Text
    to : Text
    low : ℕ
    high : ℕ
    cuts : cut comma val ≡ some (from, to)
    from_given : from ≢ []
    to_given : to ≢ []
    reads_from : date from ≡ some low
    reads_to : date to ≡ some high
    over : low ≤ t
    under : t < high + day

  Spans-of :
      (op val : Text) (t : ℕ)
      → op ≡ codes "between"
      → InRange parse_time parse_day op val t
      → Spans val t
  Spans-of op val t is (after u a reads le) = absurd (after_between op a is)
  Spans-of op val t is (before u b reads less) = absurd (before_between op b is)
  Spans-of op val t is (between from to u v b cuts g h x y over under) = record {
    from = from;
    to = to;
    low = u;
    high = v;
    cuts = IsCut-cut comma val from to cuts;
    from_given = g;
    to_given = h;
    reads_from = x;
    reads_to = y;
    over = over;
    under = under;
  }

  no_span :
      (op val : Text) (d : DateError)
      → op ≡ codes "between"
      → ((t : ℕ) → Spans val t → ⊥)
      → NoTime parse_time parse_day key f op val key (bad_date d)
  no_span op val d is n = (refl, d, refl, λ t r. n t (Spans-of op val t is r))

  -- Two dates that are given.
  module _ (op val : Text) (is : op ≡ codes "between") (from to : Text)
      (cuts : cut comma val ≡ some (from, to)) (g : from ≢ []) (h : to ≢ []) where
    own_from : (t : ℕ) (s : Spans val t) → s.from ≡ from
    own_from t s = ap (λ (p : Text × Text). p.0) (some_inj.0 (sym s.cuts ∙ cuts))

    own_to : (t : ℕ) (s : Spans val t) → s.to ≡ to
    own_to t s = ap (λ (p : Text × Text). p.1) (some_inj.0 (sym s.cuts ∙ cuts))

    both_dates : Good op val (
        then_parse (dated parse_time parse_day key from (λ t. gte f t ∷ [])) (λ l.
          then_parse
            (dated parse_time parse_day key to (λ t. lt f (t + day) ∷ []))
            (λ m. parsed (l ++ m))))
    both_dates = go (date from) (date to) refl refl
      where
        go :
            (a b : Option ℕ)
            → date from ≡ a
            → date to ≡ b
            → Good op val (
                then_parse
                  (elim a [
                    | none ↦ refused key (bad_date (invalid_date from))
                    | some t ↦ parsed (gte f t ∷ [])
                  ])
                  (λ l.
                    then_parse
                      (elim b [
                        | none ↦ refused key (bad_date (invalid_date to))
                        | some t ↦ parsed (lt f (t + day) ∷ [])
                      ])
                      (λ m. parsed (l ++ m))))
        go none b x y =
            no_span op val (invalid_date from) is
              (λ t s. clash (ap date (own_from t s) ∙ x) s.reads_from)
        go (some u) none x y =
            no_span op val (invalid_date to) is (λ t s. clash (ap date (own_to t s) ∙ y) s.reads_to)
        go (some u) (some v) x y = λ z. (
          (λ all.
              let same : all.0.0 ≡ all.1.0.0 = some_inj.0 (sym all.0.1 ∙ all.1.0.1) in
              (
                all.0.0,
                all.0.1,
                between from to u v is (cut-IsCut comma val from to cuts) g h x y all.0.2
                    (subst (λ n. n < v + day) (sym same) all.1.0.2),
              )),
          (λ w.
              let s = Spans-of op val w.0 is w.2 in
              let low : s.low ≡ u = some_inj.0 (sym s.reads_from ∙ ap date (own_from w.0 s) ∙ x) in
              let high : s.high ≡ v = some_inj.0 (sym s.reads_to ∙ ap date (own_to w.0 s) ∙ y) in
              (
                (w.0, w.1, subst (λ n. n ≤ w.0) low s.over),
                ((w.0, w.1, subst (λ n. w.0 < n + day) high s.under), tt),
              )),
        )

  between-Good :
      (op val : Text)
      → op ≡ codes "between"
      → Good op val (between_dates parse_time parse_day key f (cut comma val))
  between-Good op val is = go (cut comma val) refl
    where
      go :
          (o : Option (Text × Text))
          → cut comma val ≡ o
          → Good op val (between_dates parse_time parse_day key f o)
      go none at = no_span op val two_dates_required is (λ t s. clash at s.cuts)
      go (some ([], to)) at =
          no_span op val two_dates_required is
            (λ t s. s.from_given (ap (λ (p : Text × Text). p.0) (some_inj.0 (sym s.cuts ∙ at))))
      go (some (c ∷ from, [])) at =
          no_span op val two_dates_required is
            (λ t s. s.to_given (ap (λ (p : Text × Text). p.1) (some_inj.0 (sym s.cuts ∙ at))))
      go (some (c ∷ from, d ∷ to)) at =
          both_dates op val is (c ∷ from) (d ∷ to) at (λ e. absurd cc) (λ e. absurd cc)

  pub parse_date_filter-Means :
      (op val : Text)
      → Means
          (IsIn parse_time parse_day f (op, val))
          (NoTime parse_time parse_day key f op val)
          (parse_date_filter parse_time parse_day key f (op, val))
  unfolding parse_date_filter
  parse_date_filter-Means op val = elim (Bool-cases (text_eq op (codes "after") || text_eq op [])) [
    | inl is ↦
        rw (is, parse_date_filter) (from_date parse_time parse_day key f op val (IsAfter-iff op is))
    | inr a ↦ elim (Bool-cases (text_eq op (codes "before"))) [
      | inl is ↦
          rw (a, is, parse_date_filter)
            (to_date parse_time parse_day key f op val ((text_eq_iff op (codes "before")).0 is))
      | inr b ↦ elim (Bool-cases (text_eq op (codes "between"))) [
        | inl is ↦
            rw (a, b, is, parse_date_filter)
              (between-Good op val ((text_eq_iff op (codes "between")).0 is))
        | inr c ↦
            rw (a, b, c, parse_date_filter)
              (
                refl,
                unknown_operator op,
                refl,
                λ t r. elim r [
                  | after u x reads le ↦ not_after op a x
                  | before u x reads less ↦ differ op (codes "before") b x
                  | between from to u v x _ _ _ _ _ _ _ ↦ differ op (codes "between") c x
                ],
              )
      ]
    ]
  ]
    where
      differ : (s t : Text) → text_eq s t ≡ false → s ≡ t → ⊥
      differ s t h e = ground (arith, h, (text_eq_iff s t).1 e)
