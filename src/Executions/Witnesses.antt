-- ===== src/Executions/Witnesses.antt =====
-- Filters of List, and Cancel, at small inputs.
use react_go_workflow.Prelude.{
  ℕ, ◌+◌, ◌≡◌, refl, Option, none, some, [], ◌∷◌, Text, codes, text_eq, if◌then◌else◌,
}
use react_go_workflow.Engine.Types.{running, failed}
use react_go_workflow.Shared.Query.{Query}
use react_go_workflow.Executions.Filters.{
  parsed, refused, status_in, gte, lt, started_at, bad_date, unknown_operator, day,
}
use react_go_workflow.Executions.Listing.{list_predicates}
use react_go_workflow.Executions.Meaning.{Wanted, Bad}
use react_go_workflow.Executions.Dates.{Means}
use react_go_workflow.Executions.Laws.{list_predicates-Means}

-- A date is written as one character.
abbrev one_day : Text → Option ℕ
one_day (c ∷ []) = some c
one_day _ = none

abbrev no_time : Text → Option ℕ
no_time _ = none

abbrev query : Query
query =
    (codes "status", codes "any:running, failed") ∷ (codes "started_at", codes "between:1,2") ∷ []

query_parses :
    list_predicates one_day no_time one_day query
    ≡ parsed (status_in (running ∷ failed ∷ []) ∷ gte started_at 49 ∷ lt started_at (50 + day) ∷ [])
unfolding list_predicates
query_parses = refl

list_predicates-Means_example :
    Means
      (Wanted no_time one_day one_day query)
      (Bad no_time one_day one_day query)
      (list_predicates one_day no_time one_day query)
list_predicates-Means_example = list_predicates-Means no_time one_day one_day query

-- A time of RFC 3339 is refused where a date alone is allowed: its first colon reads as an operator's.
abbrev a_time : Text → Option ℕ
a_time s = if text_eq s (codes "2026-03-01T10:00:00Z") then some 1000 else none

time_alone_refused :
    list_predicates one_day a_time one_day ((codes "started_at", codes "2026-03-01T10:00:00Z") ∷ [])
    ≡ refused (codes "started_at") (bad_date (unknown_operator (codes "2026-03-01T10")))
unfolding list_predicates
time_alone_refused = refl

time_after_read :
    list_predicates one_day a_time one_day
      ((codes "started_at", codes "after:2026-03-01T10:00:00Z") ∷ [])
    ≡ parsed (gte started_at 1000 ∷ [])
unfolding list_predicates text_eq
time_after_read = refl
