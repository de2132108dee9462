-- ===== src/Shared/Pagination/Laws.antt =====
-- The bounds of what a client can ask for.
use react_go_workflow.Prelude.{
  ℕ, ◌≤◌, ◌≡◌, refl, sym, ap, ◌∙◌, ℤ, pos, negsuc, some, [], Text, codes, text_eq, text_eq_iff, ltb,
  arith, inl, inr, Bool-cases,
}
use mathlib.Core.Option.{some_inj}
use react_go_workflow.Shared.Numbers.{itoa, atoi}
use react_go_workflow.Shared.Numbers.Laws.{atoi-itoa}
use react_go_workflow.Shared.Query.{Query, get, query_int}
use react_go_workflow.Shared.Pagination.{
  clamp_limit, clamp_offset, parse_page_request, parse_offset_page_request,
}

-- The limit is between 1 and 100.
pub record InBounds (z : ℤ) : Type 0 where
  pub value : ℕ
  pub is : z ≡ pos value
  pub at_least : 1 ≤ value
  pub at_most : value ≤ 100

clamp_limit-InBounds : (z : ℤ) → InBounds (clamp_limit z)
unfolding clamp_limit
clamp_limit-InBounds (negsuc n) = record {
  value = 1;
  is = refl;
  at_least = omega arith;
  at_most = omega arith;
}
clamp_limit-InBounds (pos n) = elim (Bool-cases (ltb 100 n)) [
  | inl over ↦ record {
    value = 100;
    is = rw over refl;
    at_least = omega arith;
    at_most = omega arith;
  }
  | inr within ↦ elim (Bool-cases (ltb n 1)) [
    | inl under ↦ record {
      value = 1;
      is = rw (within, under) refl;
      at_least = omega arith;
      at_most = omega arith;
    }
    | inr enough ↦ record {
      value = n;
      is = rw (within, enough) refl;
      at_least = ground (arith, enough);
      at_most = ground (arith, within);
    }
  ]
]

clamp_limit_kept : (n : ℕ) → 1 ≤ n → n ≤ 100 → clamp_limit (pos n) ≡ pos n
unfolding clamp_limit
clamp_limit_kept n a b = ground arith

query_int-itoa :
    (q : Query) (key s : Text) (n : ℕ) (default : ℤ)
    → get key q ≡ s
    → atoi s ≡ some (pos n)
    → query_int q key default ≡ pos n
unfolding query_int
query_int-itoa q key s n default e reads = elim (Bool-cases (text_eq s [])) [
  | inl empty ↦ absurd (blank (sym (ap atoi ((text_eq_iff s []).0 empty)) ∙ reads))
  | inr full ↦ rw (e, full, reads) refl
]
  where
    blank : atoi [] ≡ some (pos n) → ⊥
    blank x = absurd (unfold atoi in cc)

clamp_offset-pos : (z : ℤ) → (n : ℕ) × (clamp_offset z ≡ pos n)
unfolding clamp_offset
clamp_offset-pos (negsuc n) = (0, refl)
clamp_offset-pos (pos n) = (n, ground arith)

-- Whatever the query is, the limits of both page requests are between 1 and 100 and the offset is not
-- negative.
pub page_requests-InBounds :
    (q : Query)
    → InBounds (parse_page_request q).limit
      × InBounds (parse_offset_page_request q).limit
      × ((n : ℕ) × ((parse_offset_page_request q).offset ≡ pos n))
unfolding parse_page_request parse_offset_page_request
page_requests-InBounds q = (
  clamp_limit-InBounds (query_int q (codes "limit") (pos 50)),
  clamp_limit-InBounds (query_int q (codes "limit") (pos 20)),
  clamp_offset-pos (query_int q (codes "offset") (pos 0)),
)

-- A limit from 1 to 100, written in decimal as itoa does, is taken as it is.
pub parse_page_request-itoa :
    (q : Query) (n : ℕ) (s : Text)
    → 1 ≤ n
    → n ≤ 100
    → itoa (pos n) ≡ some s
    → get (codes "limit") q ≡ s
    → (parse_page_request q).limit ≡ pos n
unfolding parse_page_request
parse_page_request-itoa q n s a b written e =
    let (t, is, reads) = atoi-itoa n (omega arith) in
    let same : t ≡ s = some_inj.0 (sym is ∙ written) in
    ap clamp_limit (query_int-itoa q (codes "limit") s n (pos 50) e (sym (ap atoi same) ∙ reads))
    ∙ clamp_limit_kept n a b
