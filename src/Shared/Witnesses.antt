-- ===== src/Shared/Witnesses.antt =====
-- The theorems of internal/shared at small queries, and what its functions answer there.
use react_go_workflow.Prelude.{ℕ, ◌≡◌, refl, pos, [], ◌∷◌, codes}
use react_go_workflow.Shared.Query.{Query, to_snake_case}
use react_go_workflow.Shared.Validation.{validate_max_len}
use react_go_workflow.Shared.Pagination.{parse_page_request, parse_offset_page_request}
use react_go_workflow.Shared.Pagination.Laws.{InBounds, page_requests-InBounds}

abbrev query : Query
query = (codes "limit", codes "75") ∷ (codes "offset", codes "-3") ∷ []

page_requests-InBounds_example :
    InBounds (parse_page_request query).limit
    × InBounds (parse_offset_page_request query).limit
    × ((n : ℕ) × ((parse_offset_page_request query).offset ≡ pos n))
page_requests-InBounds_example = page_requests-InBounds query

snake_case_runs : to_snake_case (codes "RetryCount") ≡ codes "retry_count"
unfolding to_snake_case
snake_case_runs = refl

-- Two characters of two bytes are too long for three.
max_len_counts_bytes :
    validate_max_len [] (codes "name") (0xe9 ∷ 0xe9 ∷ []) 3
    ≡ (codes "name", codes "must be at most 3 characters") ∷ []
unfolding validate_max_len
max_len_counts_bytes = refl
