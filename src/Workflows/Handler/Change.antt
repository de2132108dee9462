-- ===== src/Workflows/Handler/Change.antt =====
-- What the body of an Update asks of the row of the workflow, field by field.
use react_go_workflow.Prelude.{◌≡◌, ◌≢◌, refl, Option, none, some, [], ◌∷◌, Text}
use react_go_workflow.Value.{end, field, Object}
use react_go_workflow.Workflows.Tables.{WorkflowRow}
use react_go_workflow.Workflows.Repository.{
  changed, change_schema, change_name, change_text, change, change_option,
}
use react_go_workflow.Workflows.Requests.{UpdateRequest, slug, updated_entity}

-- A value that may be left out: the new one is the value in the column's form, or the old one.
abbrev Replaces : {A B : Type 0} → (A → B) → Option A → (old new : B) → Type 0
Replaces f none old new = new ≡ old
Replaces f (some a) old new = new ≡ f a

-- An empty text is one that was left out.
abbrev ReplacesText : {B : Type 0} → (Text → B) → Text → (old new : B) → Type 0
ReplacesText f asked old new = (asked ≡ [] → new ≡ old) × (asked ≢ [] → new ≡ f asked)

-- A schema without fields takes the one of the row away.
abbrev ReplacesSchema : Object → (old new : Object) → Type 0
ReplacesSchema asked old new =
    (asked ≡ none → new ≡ old)
    × (asked ≡ some end → new ≡ none)
    × (asked ≢ some end → asked ≢ none → new ≡ asked)

pub record IsChange (req : UpdateRequest) (old new : WorkflowRow) : Type 0 where
  pub id : new.id ≡ old.id
  pub name : ReplacesText (λ t. t) req.name old.name new.name
  pub description : ReplacesText some req.description old.description new.description
  pub status : Replaces (λ s. s) req.status old.status new.status
  pub trigger_config : Replaces some req.trigger_config old.trigger_config new.trigger_config
  pub input_schema : ReplacesSchema req.input_schema old.input_schema new.input_schema
  pub output_schema : ReplacesSchema req.output_schema old.output_schema new.output_schema
  pub webhook_slug : ReplacesText some req.webhook_slug old.webhook_slug new.webhook_slug
  pub concurrency : Replaces (λ c. c) req.concurrency old.concurrency new.concurrency
  pub timeout_seconds : Replaces some req.timeout_seconds old.timeout_seconds new.timeout_seconds

-- The fields of `changed`, one by one.
name_lem : (t o : Text) → ReplacesText (λ s. s) t o (change_name t o)
name_lem [] o = (λ e. refl, λ n. absurd (n refl))
name_lem (c ∷ s) o = (λ e. absurd cc, λ n. refl)

text_lem : (t : Text) (o : Option Text) → ReplacesText some t o (change_text t o)
text_lem [] o = (λ e. refl, λ n. absurd (n refl))
text_lem (c ∷ s) o = (λ e. absurd cc, λ n. refl)

slug_lem : (t : Text) (o : Option Text) → ReplacesText some t o (change_option (slug t) o)
slug_lem [] o = (λ e. refl, λ n. absurd (n refl))
slug_lem (c ∷ s) o = (λ e. absurd cc, λ n. refl)

change_lem : {A : Type 0} → (a : Option A) (o : A) → Replaces (λ x. x) a o (change a o)
change_lem none o = refl
change_lem (some a) o = refl

change_option_lem : {A : Type 0} → (a o : Option A) → Replaces some a o (change_option a o)
change_option_lem none o = refl
change_option_lem (some a) o = refl

schema_lem : (asked old : Object) → ReplacesSchema asked old (change_schema asked old)
schema_lem none old = (λ e. refl, λ e. absurd cc, λ n m. absurd (m refl))
schema_lem (some end) old = (λ e. absurd cc, λ e. refl, λ n m. absurd (n refl))
schema_lem (some (field k v f)) old = (λ e. absurd cc, λ e. absurd cc, λ n m. refl)

pub changed-IsChange :
    (req : UpdateRequest) (old : WorkflowRow) → IsChange req old (changed (updated_entity req) old)
unfolding changed
changed-IsChange req old = record {
  id = refl;
  name = name_lem req.name old.name;
  description = text_lem req.description old.description;
  status = change_lem req.status old.status;
  trigger_config = change_option_lem req.trigger_config old.trigger_config;
  input_schema = schema_lem req.input_schema old.input_schema;
  output_schema = schema_lem req.output_schema old.output_schema;
  webhook_slug = slug_lem req.webhook_slug old.webhook_slug;
  concurrency = change_lem req.concurrency old.concurrency;
  timeout_seconds = change_option_lem req.timeout_seconds old.timeout_seconds;
}
