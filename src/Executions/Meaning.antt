-- ===== src/Executions/Meaning.antt =====
-- What the filters of List mean, said of the rows and not of the code.
use react_go_workflow.Prelude.{
  ℕ, ◌+◌, ◌≤◌, ◌<◌, ◌≡◌, ◌≢◌, ◌⊎◌, Option, none, some, List, [], ◌∷◌, ◌++◌, map, In, All, Text,
  codes, split,
}
use react_go_workflow.Engine.Types.{
  Uuid, Status, pending, running, completed, failed, skipped, cancelled,
}
use react_go_workflow.Engine.Resolver.{trim_space}
use react_go_workflow.Shared.Query.{Query, query_string}
use react_go_workflow.Executions.Filters.{
  TriggerType, manual, cron, webhook, database_event, Execution, DateField, started_at,
  completed_at, Predicate, status_in, workflow_id_is, trigger_type_in, gte, lt, colon, comma,
  DateError, FilterError, invalid_value, not_a_uuid, bad_date, parse_date, day,
}

abbrev pub date_of : DateField → Execution → Option ℕ
date_of started_at x = x.started_at
date_of completed_at x = x.completed_at

-- What SQL says of the predicates; a comparison with NULL does not hold.
abbrev pub Passes : Predicate → Execution → Type 0
Passes (status_in l) x = In x.status l
Passes (workflow_id_is id) x = x.workflow_id ≡ id
Passes (trigger_type_in l) x = In x.trigger_type l
Passes (gte f t) x = (u : ℕ) × (date_of f x ≡ some u) × (t ≤ u)
Passes (lt f t) x = (u : ℕ) × (date_of f x ≡ some u) × (u < t)

abbrev pub status_name : Status → Text
status_name pending = codes "pending"
status_name running = codes "running"
status_name completed = codes "completed"
status_name failed = codes "failed"
status_name skipped = codes "skipped"
status_name cancelled = codes "cancelled"

abbrev pub trigger_type_name : TriggerType → Text
trigger_type_name manual = codes "manual"
trigger_type_name cron = codes "cron"
trigger_type_name webhook = codes "webhook"
trigger_type_name database_event = codes "database_event"

-- The text in two at the first separator.
abbrev pub IsCut : (sep : ℕ) → (s before behind : Text) → Type 0
IsCut sep s before behind = (s ≡ before ++ sep ∷ behind) × All (λ c. c ≢ sep) before

-- A filter with an operator before its first colon, or without one: it has no colon, or begins with one.
pub data Splits (raw : Text) : (op val : Text) → Type 0 where
  with_operator : (op val : Text) → op ≢ [] → IsCut colon raw op val → Splits raw op val
  without : ((op val : Text) → op ≢ [] → IsCut colon raw op val → ⊥) → Splits raw [] raw

-- The parts of a value that lists names.
abbrev pub parts : Text → List Text
parts val = split comma val

-- A name stands among the parts, blanks around it aside.
abbrev pub Names : Text → Text → Type 0
Names name val = In name (map trim_space (parts val))

module _ (parse_time parse_day : Text → Option ℕ) where
  -- A time is in the range that an operator and a value ask for; the day of an upper end is in it.
  pub data InRange (op val : Text) (t : ℕ) : Type 0 where
    after :
        (u : ℕ)
        → (op ≡ codes "after") ⊎ (op ≡ [])
        → parse_date parse_time parse_day val ≡ some u
        → u ≤ t
        → InRange op val t
    before :
        (u : ℕ)
        → op ≡ codes "before"
        → parse_date parse_time parse_day val ≡ some u
        → t < u + day
        → InRange op val t
    between :
        (from to : Text) (u v : ℕ)
        → op ≡ codes "between"
        → IsCut comma val from to
        → from ≢ []
        → to ≢ []
        → parse_date parse_time parse_day from ≡ some u
        → parse_date parse_time parse_day to ≡ some v
        → u ≤ t
        → t < v + day
        → InRange op val t

  abbrev pub IsIn : DateField → Text × Text → Execution → Type 0
  IsIn f o x = (t : ℕ) × (date_of f x ≡ some t) × InRange o.0 o.1 t

  -- The row is one that the filters ask for.
  pub record Wanted (parse : Text → Option Uuid) (q : Query) (x : Execution) : Type 0 where
    pub has_status :
        (raw op val : Text)
        → query_string q (codes "status") ≡ some raw
        → Splits raw op val
        → Names (status_name x.status) val
    pub has_workflow :
        (raw op val : Text)
        → query_string q (codes "workflow_id") ≡ some raw
        → Splits raw op val
        → parse val ≡ some x.workflow_id
    pub has_trigger_type :
        (raw op val : Text)
        → query_string q (codes "trigger_type") ≡ some raw
        → Splits raw op val
        → Names (trigger_type_name x.trigger_type) val
    pub has_started :
        (raw op val : Text)
        → query_string q (codes "started_at") ≡ some raw
        → Splits raw op val
        → IsIn started_at (op, val) x
    pub has_completed :
        (raw op val : Text)
        → query_string q (codes "completed_at") ≡ some raw
        → Splits raw op val
        → IsIn completed_at (op, val) x

  -- Why the filters are refused: a name of no status or trigger type, no id, or a range without a time.
  pub data Bad (parse : Text → Option Uuid) (q : Query) : Text → FilterError → Type 0 where
    bad_status :
        (raw op val p : Text)
        → query_string q (codes "status") ≡ some raw
        → Splits raw op val
        → In p (parts val)
        → ((s : Status) → s ≢ skipped → trim_space p ≢ status_name s)
        → Bad parse q (codes "status") (invalid_value p)
    bad_workflow :
        (raw op val : Text)
        → query_string q (codes "workflow_id") ≡ some raw
        → Splits raw op val
        → parse val ≡ none
        → Bad parse q (codes "workflow_id") not_a_uuid
    bad_trigger_type :
        (raw op val p : Text)
        → query_string q (codes "trigger_type") ≡ some raw
        → Splits raw op val
        → In p (parts val)
        → ((t : TriggerType) → trim_space p ≢ trigger_type_name t)
        → Bad parse q (codes "trigger_type") (invalid_value p)
    bad_range :
        (key raw op val : Text) (e : DateError)
        → query_string q key ≡ some raw
        → Splits raw op val
        → ((t : ℕ) → InRange op val t → ⊥)
        → Bad parse q key (bad_date e)
