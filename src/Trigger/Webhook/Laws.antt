-- ===== src/Trigger/Webhook/Laws.antt =====
-- The answer to a webhook that waits, from the config of a webhook_response step through its runner and the JSON
-- column of its output to the handler.
use react_go_workflow.Prelude.{
  ℕ, ℤ, pos, ◌≡◌, refl, sym, ap, ◌∙◌, Bool, true, false, Option, none, some, List, [], ◌∷◌, ◌++◌,
  Text, codes, text_eq, if◌then◌else◌,
}
use react_go_workflow.Value.{
  Value, null, nil_object, bool, string, object, array, int, float, Fields, end, Object, get_field,
  index,
}
use react_go_workflow.Engine.Errors.{Result, ok, err}
use react_go_workflow.Engine.Types.{Uuid, Call}
use react_go_workflow.Engine.Executor.{Server, Answers, execute}
use react_go_workflow.Shared.Query.{Query}
use react_go_workflow.Runners.Messages.{webhook_response_runner, status_code as code_of}
use react_go_workflow.Trigger.Webhook.Sent.{Sent, custom_response-Sent}
use react_go_workflow.Trigger.Webhook.{
  workflow, StepRun, EndedExecution, custom_response, should_wait, wait_timeout, response_output,
  is_response_type, status_code, respond, handle,
}

-- What encoding/json does to an output on its way through the database, as far as the handler reads it:
-- each entry is stored by itself, and a number comes back as a float64 that int() reads as that number.
pub record JsonColumn (int_of_float : ℕ → Value) (int_of : ℕ → ℤ) : Type 0 where
  pub store : Fields → Fields
  pub store_value : Value → Value
  pub entries :
      (k : Text) (f : Fields)
      → get_field k (store f)
        ≡ (elim (get_field k f) [ none ↦ none | some v ↦ some (store_value v) ])
  pub numbers : (x : ℕ) → (y : ℕ) × (store_value (int_of_float x) ≡ float y) × (int_of y ≡ int_of x)
  pub default : (y : ℕ) × (store_value (int 200) ≡ float y) × (int_of y ≡ pos 200)

module _ (int_of_float : ℕ → Value) (int_of : ℕ → ℤ) (column : JsonColumn int_of_float int_of)
    (unmarshal : Text → Option Value) where
  -- The status code that a config asks for.
  abbrev pub configured : Value → ℤ
  configured (float x) = int_of x
  configured _ = pos 200

  response_output-append :
      (before after : List StepRun) (f : Fields)
      → response_output before ≡ none
      → response_output (
          before ++ record { step_type = some (codes "webhook_response"); output = some f } ∷ after)
        ≡ some f
  unfolding response_output
  response_output-append [] after f h = refl
  response_output-append (r ∷ l) after f h =
      go r.output (is_response_type r.step_type) (response_output-append l after f) h
    where
      go :
          (o : Object) (b : Bool)
          → (response_output l ≡ none
              → response_output (
                  l
                  ++ record { step_type = some (codes "webhook_response"); output = some f }
                    ∷ after)
                ≡ some f)
          → (elim o [ none ↦ response_output l | some g ↦ if b then some g else response_output l ])
            ≡ none
          → (elim o [
            | none ↦ response_output (
                l
                ++ record { step_type = some (codes "webhook_response"); output = some f } ∷ after)
            | some g ↦
                if b
                then some g
                else response_output (
                    l
                    ++ record { step_type = some (codes "webhook_response"); output = some f }
                      ∷ after)
          ])
            ≡ some f
      go none b later h = later h
      go (some g) true later h = absurd cc
      go (some g) false later h = later h

  code_of-configured :
      (v : Value)
      → (y : ℕ) × (column.store_value (code_of int_of_float v) ≡ float y)
        × (int_of y ≡ configured v)
  code_of-configured (float x) = column.numbers x
  code_of-configured null = column.default
  code_of-configured nil_object = column.default
  code_of-configured (bool b) = column.default
  code_of-configured (int n) = column.default
  code_of-configured (string t) = column.default
  code_of-configured (object f) = column.default
  code_of-configured (array l) = column.default

  -- What the handler reads in the stored output.
  module _ (config input : Object) (call : Call) (out : Fields)
      (made : webhook_response_runner int_of_float call config input ≡ ok (some out)) where
    abbrev fields_of : Result Object → Fields
    fields_of (ok (some f)) = f
    fields_of (ok none) = end
    fields_of (err e) = end

    stored_code :
        get_field (codes "status_code") (column.store out)
        ≡ some (column.store_value (code_of int_of_float (index config (codes "status_code"))))
    unfolding webhook_response_runner get_field text_eq
    stored_code =
        column.entries (codes "status_code") out
        ∙ ap
            (λ f. elim (get_field (codes "status_code") f) [
              | none ↦ none
              | some v ↦ some (column.store_value v)
            ])
            (sym (ap fields_of made))

    stored_body :
        get_field (codes "body") (column.store out)
        ≡ some (column.store_value (index config (codes "body")))
    unfolding webhook_response_runner get_field text_eq
    stored_body =
        column.entries (codes "body") out
        ∙ ap
            (λ f. elim (get_field (codes "body") f) [
              | none ↦ none
              | some v ↦ some (column.store_value v)
            ])
            (sym (ap fields_of made))

    respond-configured :
        (id : Uuid) (x : EndedExecution)
        → response_output x.step_runs ≡ some (column.store out)
        → respond int_of unmarshal id (some x)
          ≡ custom_response int_of unmarshal
              (configured (index config (codes "status_code")))
              id
              x.status
              (some (column.store_value (index config (codes "body"))))
    unfolding respond
    respond-configured id x found =
        let (y, is, same) = code_of-configured (index config (codes "status_code")) in
        let code : status_code int_of unmarshal (
              some (column.store_value (code_of int_of_float (index config (codes "status_code")))))
            ≡ configured (index config (codes "status_code")) =
          ap (λ v. status_code int_of unmarshal (some v)) is ∙ same in
        rw (found, respond, stored_code, stored_body)
          (ap
            (λ n.
              custom_response int_of unmarshal n id x.status
                (some (column.store_value (index config (codes "body")))))
            code)

  -- A webhook that waits for an execution which was started and has ended, where the first step of type
  -- webhook_response with an output stored what its runner made: the handler writes an answer with the
  -- status code that the config of the step asks for, 200 where that is no number, and with the body of
  -- the config, parsed where it is a text in JSON, with the id and the status of the execution where
  -- there is none. A code from 100 to 199 but 101 is only sent ahead of an answer with code 200, and a
  -- code below 100 or above 999 makes the handler panic.
  pub handle-configured :
      (config trigger_config input : Object) (call : Call) (q : Query) (a : Answers) (v : Server)
      (wait : Uuid → ℕ → Option EndedExecution) (x : EndedExecution) (before after : List StepRun)
      (out : Fields)
      → (execute a v).error ≡ none
      → should_wait q trigger_config ≡ true
      → wait (execute a v).id (wait_timeout q) ≡ some x
      → response_output before ≡ none
      → x.step_runs
        ≡ before
          ++ record {
            step_type = some (codes "webhook_response");
            output = some (column.store out);
          }
            ∷ after
      → webhook_response_runner int_of_float call config input ≡ ok (some out)
      → Sent int_of unmarshal
          (execute a v).id
          x.status
          (column.store_value (index config (codes "body")))
          (configured (index config (codes "status_code")))
          (handle int_of unmarshal (workflow trigger_config) q a wait v).response
  unfolding handle respond webhook_response_runner
  handle-configured config tc input call q a v wait x before after out ran waits answers none_before
        runs made =
      let found : response_output x.step_runs ≡ some (column.store out) =
        ap response_output runs
        ∙ response_output-append before after (column.store out) none_before in
      rw
        (
          handle,
          ran,
          waits,
          answers,
          respond-configured config input call out made (execute a v).id x found,
        )
        (custom_response-Sent int_of unmarshal (configured (index config (codes "status_code")))
          (execute a v).id x.status (column.store_value (index config (codes "body"))))
