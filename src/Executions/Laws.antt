-- ===== src/Executions/Laws.antt =====
-- List queries exactly the executions that its filters name, or says which of them is wrong.
use mathlib.Core.Option.{some_inj}
use react_go_workflow.Prelude.{
  ℕ, ◌≡◌, refl, sym, ap, ◌∙◌, subst, Option, none, some, List, [], ◌∷◌, Text, codes, lookup,
}
use react_go_workflow.Engine.Types.{Uuid, Status}
use react_go_workflow.Shared.Query.{Query, query_string}
use react_go_workflow.Executions.Filters.{
  TriggerType, Predicate, status_in, workflow_id_is, trigger_type_in, DateField, started_at,
  completed_at, valid_statuses, valid_trigger_types, cut, parse_filter_value, FilterError,
  not_a_uuid, Parsed, parsed, refused, then_parse, parse_names, status_filter, trigger_type_filter,
  workflow_id_filter, date_filter, parse_date_filter,
}
use react_go_workflow.Executions.Listing.{list_predicates}
use react_go_workflow.Executions.Meaning.{
  Splits, status_name, trigger_type_name, parts, Names, IsIn, Wanted, Bad, bad_status, bad_workflow,
  bad_trigger_type, bad_range,
}
use react_go_workflow.Executions.Splitting.{operator_of, value_of, operands-Splits, Splits-operands}
use react_go_workflow.Executions.Dates.{Means, NoTime}
use react_go_workflow.Executions.Between.{parse_date_filter-Means}
use react_go_workflow.Executions.Combining.{combine-Means, Means-map}
use react_go_workflow.Executions.Names.{
  Reads, parse_names-Reads, status_sound, status_single, status_known, trigger_sound,
  trigger_single, trigger_known,
}

clash : {A : Type 0} {a : A} {o : Option A} → o ≡ none → o ≡ some a → ⊥
clash p q = absurd cc

same_value : (raw y op val : Text) → some raw ≡ some y → Splits y op val → value_of raw ≡ val
same_value raw y op val e sp =
    sym (Splits-operands raw op val (subst (λ z. Splits z op val) (sym (some_inj.0 e)) sp)).1

same_operator : (raw y op val : Text) → some raw ≡ some y → Splits y op val → operator_of raw ≡ op
same_operator raw y op val e sp =
    sym (Splits-operands raw op val (subst (λ z. Splits z op val) (sym (some_inj.0 e)) sp)).0

module _ (parse_time parse_day : Text → Option ℕ) (parse : Text → Option Uuid) (q : Query) where
  abbrev No : Text → FilterError → Type 0
  No = Bad parse_time parse_day parse q

  -- The filter of the statuses.
  status-Means :
      (o : Option Text)
      → query_string q (codes "status") ≡ o
      → Means
          (λ x.
            (raw op val : Text)
            → o ≡ some raw
            → Splits raw op val
            → Names (status_name x.status) val)
          No
          (status_filter o)
  unfolding parse_filter_value cut
  status-Means none is = λ x. ((λ _ raw op val e. absurd cc), (λ _. tt))
  status-Means (some raw) is =
      go (parse_names (codes "status") valid_statuses (parts (value_of raw))) (
        parse_names-Reads (codes "status") status_name valid_statuses status_sound status_single
          (parts (value_of raw)))
    where
      go :
          (r : Parsed (List Status))
          → Reads
              (codes "status")
              status_name
              valid_statuses
              status_sound
              status_single
              (parts (value_of raw))
              r
          → Means
              (λ x.
                (y op val : Text)
                → some raw ≡ some y
                → Splits y op val
                → Names (status_name x.status) val)
              No
              (then_parse r (λ l. parsed (status_in l ∷ [])))
      go (parsed l) h = λ x. (
        (λ all y op val e sp.
            subst (Names (status_name x.status)) (same_value raw y op val e sp)
              ((h x.status).0 all.0)),
        (λ w. (
          (h x.status).1 (w raw (operator_of raw) (value_of raw) refl (operands-Splits raw)),
          tt,
        )),
      )
      go (refused k e) (p, own, error, i, unknown) =
          subst (λ j. No j e) (sym own)
            (subst (No (codes "status")) (sym error) (
              bad_status raw (operator_of raw) (value_of raw) p is (operands-Splits raw) i
                (λ s n same.
                  clash unknown (ap (λ j. lookup j valid_statuses) same ∙ status_known s n))))

  trigger_type-Means :
      (o : Option Text)
      → query_string q (codes "trigger_type") ≡ o
      → Means
          (λ x.
            (raw op val : Text)
            → o ≡ some raw
            → Splits raw op val
            → Names (trigger_type_name x.trigger_type) val)
          No
          (trigger_type_filter o)
  unfolding parse_filter_value cut
  trigger_type-Means none is = λ x. ((λ _ raw op val e. absurd cc), (λ _. tt))
  trigger_type-Means (some raw) is =
      go (parse_names (codes "trigger_type") valid_trigger_types (parts (value_of raw))) (
        parse_names-Reads (codes "trigger_type") trigger_type_name valid_trigger_types trigger_sound
          trigger_single (parts (value_of raw)))
    where
      go :
          (r : Parsed (List TriggerType))
          → Reads
              (codes "trigger_type")
              trigger_type_name
              valid_trigger_types
              trigger_sound
              trigger_single
              (parts (value_of raw))
              r
          → Means
              (λ x.
                (y op val : Text)
                → some raw ≡ some y
                → Splits y op val
                → Names (trigger_type_name x.trigger_type) val)
              No
              (then_parse r (λ l. parsed (trigger_type_in l ∷ [])))
      go (parsed l) h = λ x. (
        (λ all y op val e sp.
            subst (Names (trigger_type_name x.trigger_type)) (same_value raw y op val e sp)
              ((h x.trigger_type).0 all.0)),
        (λ w. (
          (h x.trigger_type).1 (w raw (operator_of raw) (value_of raw) refl (operands-Splits raw)),
          tt,
        )),
      )
      go (refused k e) (p, own, error, i, unknown) =
          subst (λ j. No j e) (sym own)
            (subst (No (codes "trigger_type")) (sym error) (
              bad_trigger_type raw (operator_of raw) (value_of raw) p is (operands-Splits raw) i
                (λ t same.
                  clash unknown (ap (λ j. lookup j valid_trigger_types) same ∙ trigger_known t))))

  workflow_id-Means :
      (o : Option Text)
      → query_string q (codes "workflow_id") ≡ o
      → Means
          (λ x.
            (raw op val : Text) → o ≡ some raw → Splits raw op val → parse val ≡ some x.workflow_id)
          No
          (workflow_id_filter parse o)
  unfolding parse_filter_value cut
  workflow_id-Means none is = λ x. ((λ _ raw op val e. absurd cc), (λ _. tt))
  workflow_id-Means (some raw) is = go (parse (value_of raw)) refl
    where
      go :
          (r : Option Uuid)
          → parse (value_of raw) ≡ r
          → Means
              (λ x.
                (y op val : Text)
                → some raw ≡ some y
                → Splits y op val
                → parse val ≡ some x.workflow_id)
              No
              (elim r [
                | none ↦ refused (codes "workflow_id") not_a_uuid
                | some id ↦ parsed (workflow_id_is id ∷ [])
              ])
      go none reads =
          bad_workflow raw (operator_of raw) (value_of raw) is (operands-Splits raw) reads
      go (some id) reads = λ x. (
        (λ all y op val e sp.
            subst (λ z. parse z ≡ some x.workflow_id) (same_value raw y op val e sp)
              (reads ∙ ap some (sym all.0))),
        (λ w. (
          some_inj.0
              (sym (w raw (operator_of raw) (value_of raw) refl (operands-Splits raw)) ∙ reads),
          tt,
        )),
      )

  date-Means :
      (key : Text) (f : DateField) (o : Option Text)
      → query_string q key ≡ o
      → Means
          (λ x.
            (raw op val : Text)
            → o ≡ some raw
            → Splits raw op val
            → IsIn parse_time parse_day f (op, val) x)
          No
          (date_filter parse_time parse_day key f o)
  date-Means key f none is = λ x. ((λ _ raw op val e. absurd cc), (λ _. tt))
  date-Means key f (some raw) is =
      go (parse_date_filter parse_time parse_day key f (operator_of raw, value_of raw))
        (parse_date_filter-Means parse_time parse_day key f (operator_of raw) (value_of raw))
    where
      go :
          (r : Parsed (List Predicate))
          → Means
              (IsIn parse_time parse_day f (operator_of raw, value_of raw))
              (NoTime parse_time parse_day key f (operator_of raw) (value_of raw))
              r
          → Means
              (λ x.
                (y op val : Text)
                → some raw ≡ some y
                → Splits y op val
                → IsIn parse_time parse_day f (op, val) x)
              No
              r
      go (parsed l) h = λ x. (
        (λ all y op val e sp.
            subst (λ z. IsIn parse_time parse_day f (z, val) x) (same_operator raw y op val e sp)
              (subst (λ z. IsIn parse_time parse_day f (operator_of raw, z) x)
                (same_value raw y op val e sp) ((h x).0 all))),
        (λ w. (h x).1 (w raw (operator_of raw) (value_of raw) refl (operands-Splits raw))),
      )
      go (refused k e) (own, d, error, no_time) =
          subst (λ j. No j e) (sym own)
            (subst (No key) (sym error) (
              bad_range key raw (operator_of raw) (value_of raw) d is (operands-Splits raw)
                no_time))

  -- List reads its filters in one of two ways, each of them in two at its first colon, unless it
  -- begins with that: what stands before it is the operator, and what stands behind it, or else the
  -- whole, is the value. It makes predicates, and then a row of the executions passes all of them
  -- exactly if its status and its trigger type have names that stand in the lists of the query, its
  -- workflow is the one of the query, and its times are in the ranges of the query, each where the
  -- query says something of it. Or it refuses, and then the filter that it names has a part that is no
  -- name, or is no id, or has an operator and a value that no time is in the range of: a time of RFC
  -- 3339 alone is one, since what stands before its first colon is read as the operator.
  pub list_predicates-Means :
      Means
        (Wanted parse_time parse_day parse q)
        (Bad parse_time parse_day parse q)
        (list_predicates parse parse_time parse_day q)
  unfolding list_predicates
  list_predicates-Means =
      Means-map No _ (Wanted parse_time parse_day parse q)
        (list_predicates parse parse_time parse_day q)
        (λ x w. record {
          has_status = w.0;
          has_workflow = w.1.0;
          has_trigger_type = w.1.1.0;
          has_started = w.1.1.1.0;
          has_completed = w.1.1.1.1;
        })
        (λ x w.
          (w.has_status, (w.has_workflow, (w.has_trigger_type, (w.has_started, w.has_completed)))))
        (combine-Means No _ _ _ _ (status-Means _ refl) (
          combine-Means No _ _ _ _ (workflow_id-Means _ refl) (
            combine-Means No _ _ _ _ (trigger_type-Means _ refl) (
              combine-Means No _ _ _ _ (date-Means (codes "started_at") started_at _ refl)
                (date-Means (codes "completed_at") completed_at _ refl)))))
