-- ===== src/Shared/Pagination.antt =====
-- internal/shared/pagination.go. The cursor's base64 and JSON are left out.
pub mod Laws
use react_go_workflow.Prelude.{
  ℕ, ℤ, pos, negsuc, Bool, true, false, Text, codes, ltb, if◌then◌else◌,
}
use react_go_workflow.Shared.Query.{Query, get, query_int}

pub record PageRequest : Type 0 where
  pub cursor : Text
  pub limit : ℤ

pub record OffsetPageRequest : Type 0 where
  pub offset : ℤ
  pub limit : ℤ

-- n > m and n < m for an m that is not negative.
abbrev above : ℕ → ℤ → Bool
above m (pos n) = ltb m n
above m (negsuc n) = false

abbrev below : ℕ → ℤ → Bool
below m (pos n) = ltb n m
below m (negsuc n) = true

unfoldable pub clamp_limit : ℤ → ℤ
clamp_limit n =
    let capped = if above 100 n then pos 100 else n in if below 1 capped then pos 1 else capped

-- ParsePageRequest
unfoldable pub parse_page_request : Query → PageRequest
unfolding clamp_limit query_int get
parse_page_request q = record {
  cursor = get (codes "cursor") q;
  limit = clamp_limit (query_int q (codes "limit") (pos 50));
}

unfoldable pub clamp_offset : ℤ → ℤ
clamp_offset n = if below 0 n then pos 0 else n

-- ParseOffsetPageRequest
unfoldable pub parse_offset_page_request : Query → OffsetPageRequest
unfolding clamp_limit clamp_offset query_int
parse_offset_page_request q = record {
  offset = clamp_offset (query_int q (codes "offset") (pos 0));
  limit = clamp_limit (query_int q (codes "limit") (pos 20));
}
