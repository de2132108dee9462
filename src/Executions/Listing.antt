-- ===== src/Executions/Listing.antt =====
-- internal/execution/handler.go, List: the order and the predicates of its query, and its answer.
use react_go_workflow.Prelude.{
  ℕ, Bool, true, false, Option, none, some, List, [], ◌∷◌, ◌++◌, Text, codes, text_eq, lookup,
  split,
}
use react_go_workflow.Engine.Types.{Uuid}
use react_go_workflow.Shared.Query.{Query, query_string}
use react_go_workflow.Shared.Pagination.{OffsetPageRequest, parse_offset_page_request}
use react_go_workflow.Executions.Filters.{
  Execution, Predicate, started_at, completed_at, FilterError, Parsed, parsed, refused, then_parse,
  cut, colon, parse_names, parse_filter_value, parse_date_filter, status_filter, workflow_id_filter,
  trigger_type_filter, date_filter,
}

pub data Column : Type 0 where
  status trigger_type started date_created : Column

pub record Order : Type 0 where
  pub column : Column
  pub descending : Bool

abbrev sortable_fields : List (Text × Column)
sortable_fields =
    (codes "status", status)
    ∷ (codes "trigger_type", trigger_type)
    ∷ (codes "started_at", started)
    ∷ (codes "date_created", date_created)
    ∷ []

abbrev newest_first : Order
newest_first = record { column = date_created; descending = true }

abbrev sorted_by : Option Column → Bool → Order
sorted_by none d = newest_first
sorted_by (some c) d = record { column = c; descending = d }

abbrev order_of : Text → Option (Text × Text) → Order
order_of s none = sorted_by (lookup s sortable_fields) false
order_of s (some (col, dir)) = sorted_by (lookup col sortable_fields) (text_eq dir (codes "desc"))

abbrev list_order : Option Text → Order
list_order none = newest_first
list_order (some s) = order_of s (cut colon s)

pub record ListQuery : Type 0 where
  pub order : Order
  pub predicates : List Predicate

-- One filter after the other; the first that is refused ends it.
abbrev pub combine : Parsed (List Predicate) → Parsed (List Predicate) → Parsed (List Predicate)
combine r s = then_parse r (λ l. then_parse s (λ m. parsed (l ++ m)))

-- `parse` is uuid.Parse, the other two are time.Parse with the layouts of parseDate.
module _ (parse : Text → Option Uuid) (parse_time : Text → Option ℕ)
    (parse_day : Text → Option ℕ) where
  unfoldable pub list_predicates : Query → Parsed (List Predicate)
  unfolding query_string parse_names parse_filter_value parse_date_filter split
  list_predicates q = combine (status_filter (query_string q (codes "status"))) (
      combine (workflow_id_filter parse (query_string q (codes "workflow_id"))) (
        combine (trigger_type_filter (query_string q (codes "trigger_type"))) (
          combine
            (date_filter parse_time parse_day (codes "started_at") started_at
              (query_string q (codes "started_at")))
            (date_filter parse_time parse_day (codes "completed_at") completed_at
              (query_string q (codes "completed_at"))))))

  -- The query of List.
  unfoldable pub list_query : Query → Parsed ListQuery
  unfolding list_predicates
  list_query q =
      then_parse (list_predicates q) (λ l.
        parsed (record { order = list_order (query_string q (codes "sort")); predicates = l }))

  -- What List answers.
  pub data ListResponse : Type 0 where
    invalid_filter : (key : Text) → FilterError → ListResponse
    internal_error : ListResponse
    listed : List Execution → (total : ℕ) → OffsetPageRequest → ListResponse

  -- `count` and `fetch` run the query; each can fail.
  module _ (count : ListQuery → Option ℕ)
      (fetch : ListQuery → OffsetPageRequest → Option (List Execution)) where
    abbrev fetched : ℕ → OffsetPageRequest → Option (List Execution) → ListResponse
    fetched total page none = internal_error
    fetched total page (some l) = listed l total page

    abbrev counted : ListQuery → OffsetPageRequest → Option ℕ → ListResponse
    counted l page none = internal_error
    counted l page (some total) = fetched total page (fetch l page)

    -- List
    unfoldable pub list : Query → ListResponse
    unfolding list_query
    list q = elim (list_query q) [
      | refused key e ↦ invalid_filter key e
      | parsed l ↦ let page = parse_offset_page_request q in counted l page (count l)
    ]
