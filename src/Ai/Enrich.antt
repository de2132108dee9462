-- ===== src/Ai/Enrich.antt =====
-- internal/ai/handler.go: enrichResult and scanForSecrets.
pub mod Known
pub mod Missing
pub mod Matching
pub mod Laws
use react_go_workflow.Prelude.{
  ℕ, zero, suc, ◌+◌, Bool, true, false, ◌||◌, not, Option, none, some, List, [], ◌∷◌, ◌++◌, length,
  Text, codes, text_eq, lookup, insert, if◌then◌else◌,
}
use react_go_workflow.Value.{
  Value, null, nil_object, bool, int, float, string, object, array, Items, nil, cons, Fields, end,
  field, Object, of_object, decimal,
}
use react_go_workflow.Engine.Types.{Uuid}
use react_go_workflow.Engine.Template.{Match, span, not_close, strip_prefix, scan, hits}
use react_go_workflow.Shared.Errors.{ApiError, with_details}

-- A step and an edge as the language model returns them.
pub record GeneratedStep : Type 0 where
  pub name : Text
  pub step_type : Text
  pub description : Text
  pub config : Object

pub record GeneratedEdge : Type 0 where
  pub source_step_name : Text
  pub target_step_name : Text
  pub source_output : Text
  pub edge_type : Text

pub record ToolResult : Type 0 where
  pub steps : List GeneratedStep
  pub edges : List GeneratedEdge
  pub summary : Text
  pub input_schema : Object

pub record ResponseStep : Type 0 where
  pub id : Text
  pub step_type : Text
  pub step_type_id : Text
  pub name : Text
  pub description : Text
  pub config : Object

pub record GenerateResponse : Type 0 where
  pub steps : List ResponseStep
  pub edges : List GeneratedEdge
  pub summary : Text
  pub input_schema : Object
  pub missing_secrets : List Text

pub data Enriched : Type 0 where
  ok : GenerateResponse → Enriched
  err : ApiError → Enriched

abbrev pub ai_invalid_result : ApiError
ai_invalid_result = record {
  code = codes "AI_INVALID_RESULT";
  message = codes "AI generated an invalid workflow";
  details = [];
}

abbrev Details : Type 0
Details = List (Text × Text)

-- The variables of the loop over the steps.
pub record Checked : Type 0 where
  pub step_name_to_id : Details
  pub invalid_types : Details
  pub response_steps : List ResponseStep

-- `types` is stepTypesByName with the ids as texts, `new_id` what uuid.New().String() returns.
module _ (types : Details) (new_id : ℕ → Text) where
  abbrev pub response_step : Text → Text → GeneratedStep → ResponseStep
  response_step id type_id s = record {
    id = id;
    step_type = s.step_type;
    step_type_id = type_id;
    name = s.name;
    description = s.description;
    config = s.config;
  }

  -- The loop over the steps.
  unfoldable pub check_steps : ℕ → Details → Details → List GeneratedStep → Checked
  check_steps n names invalid [] = record {
    step_name_to_id = names;
    invalid_types = invalid;
    response_steps = [];
  }
  check_steps n names invalid (s ∷ l) = elim (lookup s.step_type types) [
    | none ↦
        check_steps n names (insert s.name (codes "unknown step type: " ++ s.step_type) invalid) l
    | some type_id ↦
        let rest = check_steps (suc n) (insert s.name (new_id n) names) invalid l in
        record rest { response_steps = response_step (new_id n) type_id s ∷ rest.response_steps }
  ]

  abbrev pub check_end : Details → Text → Text → Details → Details
  check_end names key name invalid = elim (lookup name names) [
    | none ↦ insert key (codes "references unknown step: " ++ name) invalid
    | some _ ↦ invalid
  ]

  abbrev pub source_key : ℕ → Text
  source_key i = codes "edge_" ++ (decimal i ++ codes "_source")

  abbrev pub target_key : ℕ → Text
  target_key i = codes "edge_" ++ (decimal i ++ codes "_target")

  -- The loop over the edges, from an index on.
  unfoldable pub check_edges : Details → ℕ → Details → List GeneratedEdge → Details
  unfolding decimal
  check_edges names i invalid [] = invalid
  check_edges names i invalid (e ∷ l) =
      check_edges names (suc i)
        (check_end names (target_key i) e.target_step_name
          (check_end names (source_key i) e.source_step_name invalid))
        l

abbrev pub close_secret : Text → Text → Option Match
close_secret [] s = none
close_secret (c ∷ key) s = elim (strip_prefix (codes "}}") s) [
  | none ↦ none
  | some _ ↦ some (record { group = c ∷ key; more = length (c ∷ key) + 11 })
]

-- `\{\{secrets\.([^}]+)\}\}`, at the start of a text.
unfoldable pub match_secret : Text → Option Match
unfolding span strip_prefix
match_secret s = elim (strip_prefix (codes "{{secrets.") s) [
  | none ↦ none
  | some t ↦ close_secret (span not_close t).front (span not_close t).rest
]

-- Whether a key is in a set.
unfoldable pub has_key : Text → List Text → Bool
has_key k [] = false
has_key k (j ∷ l) = text_eq j k || has_key k l

-- missing[k] = true, unless the secret exists.
abbrev pub add_missing : List Text → Text → List Text → List Text
add_missing existing k missing =
    if has_key k existing then missing else if has_key k missing then missing else k ∷ missing

unfoldable pub add_all : List Text → List Text → List Text → List Text
unfolding has_key
add_all existing [] missing = missing
add_all existing (k ∷ l) missing = add_all existing l (add_missing existing k missing)

-- The keys that a text refers to.
unfoldable pub secret_refs : Text → List Text
unfolding match_secret scan hits
secret_refs s = hits (scan match_secret zero s)

module _ (existing : List Text) where
  unfoldable mutual
    unfolding add_all secret_refs

    -- scanForSecrets
    pub scan_for_secrets : Value → List Text → List Text
    scan_for_secrets (string s) missing = add_all existing (secret_refs s) missing
    scan_for_secrets (object f) missing = scan_fields f missing
    scan_for_secrets (array l) missing = scan_items l missing
    scan_for_secrets null missing = missing
    scan_for_secrets nil_object missing = missing
    scan_for_secrets (bool b) missing = missing
    scan_for_secrets (int n) missing = missing
    scan_for_secrets (float x) missing = missing

    pub scan_items : Items → List Text → List Text
    scan_items nil missing = missing
    scan_items (cons v l) missing = scan_items l (scan_for_secrets v missing)

    pub scan_fields : Fields → List Text → List Text
    scan_fields end missing = missing
    scan_fields (field k v f) missing = scan_fields f (scan_for_secrets v missing)

  -- The loop over the configs.
  unfoldable pub scan_steps : List GeneratedStep → List Text → List Text
  unfolding scan_for_secrets
  scan_steps [] missing = missing
  scan_steps (s ∷ l) missing = scan_steps l (scan_for_secrets (of_object s.config) missing)

module _ (types : Details) (new_id : ℕ → Text) (existing : List Text) where
  abbrev pub respond : ToolResult → List ResponseStep → Enriched
  respond r steps = ok (record {
    steps = steps;
    edges = r.edges;
    summary = r.summary;
    input_schema = r.input_schema;
    missing_secrets = scan_steps existing r.steps [];
  })

  abbrev pub invalid : Details → Enriched
  invalid details = err (with_details details ai_invalid_result)

  abbrev pub after_edges : ToolResult → Checked → Details → Enriched
  after_edges r c (d ∷ details) = invalid (d ∷ details)
  after_edges r c [] = respond r c.response_steps

  abbrev pub after_steps : ToolResult → Checked → Details → Enriched
  after_steps r c (d ∷ details) = invalid (d ∷ details)
  after_steps r c [] = after_edges r c (check_edges types new_id c.step_name_to_id 0 [] r.edges)

  abbrev pub enrich_some : ToolResult → List GeneratedStep → Enriched
  enrich_some r [] = invalid ((codes "steps", codes "no steps were generated") ∷ [])
  enrich_some r (s ∷ l) =
      let c = check_steps types new_id 0 [] [] (s ∷ l) in after_steps r c c.invalid_types

  -- enrichResult
  unfoldable pub enrich_result : ToolResult → Enriched
  unfolding check_steps check_edges scan_steps with_details
  enrich_result r = enrich_some r r.steps
