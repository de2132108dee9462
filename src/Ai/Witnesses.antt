-- ===== src/Ai/Witnesses.antt =====
-- The theorems on generated workflows at a small one, and a test.
use react_go_workflow.Prelude.{
  ℕ, ◌≡◌, refl, none, some, [], ◌∷◌, List, Text, codes, inl, inr, lookup,
}
use react_go_workflow.Value.{string, end, field}
use react_go_workflow.Ai.Enrich.{
  GeneratedStep, ToolResult, GenerateResponse, ok, enrich_result, secret_refs,
}
use react_go_workflow.Ai.Enrich.Laws.{
  IsSound, Answered, enrich_result-Answered, enrich_result-IsSound,
}

abbrev types : List (Text × Text)
types = (codes "log", codes "7") ∷ []

abbrev generated_step : Text → GeneratedStep
generated_step name = record {
  name = name;
  step_type = codes "log";
  description = [];
  config = some (field (codes "message") (string (codes "{{secrets.API}}")) end);
}

abbrev generated : ToolResult
generated = record {
  steps = generated_step (codes "a") ∷ generated_step (codes "b") ∷ [];
  edges =
      record {
        source_step_name = codes "a";
        target_step_name = codes "b";
        source_output = [];
        edge_type = codes "normal";
      }
      ∷ [];
  summary = [];
  input_schema = none;
}

new_id : ℕ → Text
new_id n = n ∷ []

generated-IsSound : IsSound types generated
unfolding lookup
generated-IsSound = record {
  some_step = λ e. cc;
  known = ((codes "7", refl), ((codes "7", refl), tt));
  joined = ((inl refl, inr (inl refl)), tt);
}

enrich_result-Answered_example :
    (a : GenerateResponse) × (enrich_result types new_id [] generated ≡ ok a)
    × Answered types [] generated a
enrich_result-Answered_example = enrich_result-Answered types new_id [] generated generated-IsSound

abbrev answer : GenerateResponse
answer = (enrich_result-Answered types new_id [] generated generated-IsSound).0

enrich_result-IsSound_example : IsSound types generated
enrich_result-IsSound_example =
    enrich_result-IsSound types new_id [] generated answer
      (enrich_result-Answered types new_id [] generated generated-IsSound).1

-- The resolver trims an expression, but a reference with spaces is not found missing.
spaced_secret : secret_refs (codes "{{ secrets.API }}") ≡ []
unfolding secret_refs
spaced_secret = refl

plain_secret : secret_refs (codes "x {{secrets.API}}") ≡ codes "API" ∷ []
unfolding secret_refs
plain_secret = refl
