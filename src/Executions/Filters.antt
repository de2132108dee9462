-- ===== src/Executions/Filters.antt =====
-- internal/execution/handler.go: the filters of List. A time is the number of nanoseconds since a moment before
-- all dates that time.Parse takes; time.Parse and uuid.Parse are parameters.
use react_go_workflow.Prelude.{
  ℕ, ◌+◌, ◌*◌, ◌||◌, Option, none, some, List, [], ◌∷◌, ◌++◌, Text, codes, text_eq, lookup, split,
  ◌==◌, if◌then◌else◌,
}
use react_go_workflow.Engine.Types.{Uuid, Status, pending, running, completed, failed, cancelled}
use react_go_workflow.Engine.Resolver.{trim_space}

pub data TriggerType : Type 0 where
  manual cron webhook database_event : TriggerType

-- A row of workflow_executions.
pub record Execution : Type 0 where
  pub id : Uuid
  pub workflow_id : Uuid
  pub status : Status
  pub trigger_type : TriggerType
  pub started_at : Option ℕ
  pub completed_at : Option ℕ

-- The date columns of datePredMap.
pub data DateField : Type 0 where
  started_at completed_at : DateField

pub data Predicate : Type 0 where
  status_in : List Status → Predicate
  workflow_id_is : Uuid → Predicate
  trigger_type_in : List TriggerType → Predicate
  gte lt : DateField → ℕ → Predicate

abbrev pub valid_statuses : List (Text × Status)
valid_statuses =
    (codes "pending", pending)
    ∷ (codes "running", running)
    ∷ (codes "completed", completed)
    ∷ (codes "failed", failed)
    ∷ (codes "cancelled", cancelled)
    ∷ []

abbrev pub valid_trigger_types : List (Text × TriggerType)
valid_trigger_types =
    (codes "manual", manual)
    ∷ (codes "cron", cron)
    ∷ (codes "webhook", webhook)
    ∷ (codes "database_event", database_event)
    ∷ []

-- What stands before and behind the first occurrence of a character.
unfoldable pub cut : ℕ → Text → Option (Text × Text)
cut sep [] = none
cut sep (c ∷ s) =
    if c == sep
    then some ([], s)
    else elim (cut sep s) [ none ↦ none | some (before, behind) ↦ some (c ∷ before, behind) ]

abbrev pub colon : ℕ
colon = 58

abbrev pub comma : ℕ
comma = 44

-- The operator and the value of a filter; a colon at the front is none.
abbrev pub operands : Text → Option (Text × Text) → Text × Text
operands raw none = ([], raw)
operands raw (some ([], val)) = ([], raw)
operands raw (some (c ∷ op, val)) = (c ∷ op, val)

-- parseFilterValue
unfoldable pub parse_filter_value : Text → Text
unfolding cut
parse_filter_value raw = (operands raw (cut colon raw)).1

pub data DateError : Type 0 where
  invalid_date unknown_operator : Text → DateError
  two_dates_required : DateError

pub data FilterError : Type 0 where
  invalid_value : Text → FilterError
  not_a_uuid : FilterError
  bad_date : DateError → FilterError

-- A result, or the error with the name of the filter in its details.
pub data Parsed (A : Type 0) : Type 0 where
  parsed : A → Parsed A
  refused : (key : Text) → FilterError → Parsed A

abbrev pub then_parse : {A B : Type 0} → Parsed A → (A → Parsed B) → Parsed B
then_parse (parsed a) f = f a
then_parse (refused key e) f = refused key e

-- The loop over the parts of a list of names.
unfoldable pub parse_names : {A : Type 0} → Text → List (Text × A) → List Text → Parsed (List A)
unfolding lookup trim_space
parse_names key valid [] = parsed []
parse_names key valid (p ∷ ps) =
    let rest = parse_names key valid ps in
    elim (lookup (trim_space p) valid) [
      | none ↦ refused key (invalid_value p)
      | some v ↦ then_parse rest (λ l. parsed (v ∷ l))
    ]

abbrev pub status_filter : Option Text → Parsed (List Predicate)
status_filter none = parsed []
status_filter (some raw) =
    then_parse (parse_names (codes "status") valid_statuses (split comma (parse_filter_value raw)))
      (λ l. parsed (status_in l ∷ []))

abbrev pub trigger_type_filter : Option Text → Parsed (List Predicate)
trigger_type_filter none = parsed []
trigger_type_filter (some raw) =
    then_parse
      (parse_names (codes "trigger_type") valid_trigger_types
        (split comma (parse_filter_value raw)))
      (λ l. parsed (trigger_type_in l ∷ []))

abbrev pub workflow_id_filter : (Text → Option Uuid) → Option Text → Parsed (List Predicate)
workflow_id_filter parse none = parsed []
workflow_id_filter parse (some raw) = elim (parse (parse_filter_value raw)) [
  | none ↦ refused (codes "workflow_id") not_a_uuid
  | some id ↦ parsed (workflow_id_is id ∷ [])
]

abbrev pub day : ℕ
day = 24 * 3600 * 1000000000

module _ (parse_time : Text → Option ℕ) (parse_day : Text → Option ℕ) where
  abbrev pub parse_date : Text → Option ℕ
  parse_date s = elim (parse_time s) [ some t ↦ some t | none ↦ parse_day s ]

  abbrev pub dated : Text → Text → (ℕ → List Predicate) → Parsed (List Predicate)
  dated key s f = elim (parse_date s) [
    | none ↦ refused key (bad_date (invalid_date s))
    | some t ↦ parsed (f t)
  ]

  abbrev pub between_dates : Text → DateField → Option (Text × Text) → Parsed (List Predicate)
  between_dates key field (some (c ∷ from, d ∷ to)) =
      then_parse (dated key (c ∷ from) (λ t. gte field t ∷ []))
        (λ l. then_parse (dated key (d ∷ to) (λ t. lt field (t + day) ∷ [])) (λ m. parsed (l ++ m)))
  between_dates key field _ = refused key (bad_date two_dates_required)

  -- parseDateFilter on the operator and the value; the key names the column.
  unfoldable pub parse_date_filter : Text → DateField → Text × Text → Parsed (List Predicate)
  unfolding text_eq cut
  parse_date_filter key field (op, val) =
      if text_eq op (codes "after") || text_eq op []
      then dated key val (λ t. gte field t ∷ [])
      else if text_eq op (codes "before")
      then dated key val (λ t. lt field (t + day) ∷ [])
      else if text_eq op (codes "between")
      then between_dates key field (cut comma val)
      else refused key (bad_date (unknown_operator op))

  abbrev pub date_filter : Text → DateField → Option Text → Parsed (List Predicate)
  date_filter key field none = parsed []
  date_filter key field (some raw) = parse_date_filter key field (operands raw (cut colon raw))
