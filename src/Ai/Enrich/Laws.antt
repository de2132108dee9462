-- ===== src/Ai/Enrich/Laws.antt =====
-- Which workflows enrichResult accepts, and what it answers for them.
use react_go_workflow.Prelude.{
  ℕ, suc, ◌≡◌, ◌≢◌, ◌↔◌, refl, sym, ap, ◌∙◌, subst, ◌⊎◌, inl, inr, Option, none, some, List, [],
  ◌∷◌, ◌++◌, map, Text, codes, lookup, insert, All, In,
}
use react_go_workflow.Ai.Enrich.{
  GeneratedStep, GeneratedEdge, ToolResult, GenerateResponse, ok, Checked, check_steps, check_edges,
  check_end, scan_steps, enrich_result, enrich_some, after_steps, after_edges, source_key,
  target_key,
}
use react_go_workflow.Ai.Enrich.Missing.{StepsMention, scan_steps-In}
use react_go_workflow.Ai.Enrich.Known.{
  Details, Has, insert-full, check_steps-IsKnown, Resolved, check_steps-Resolved,
}

-- An edge that joins steps by their names.
abbrev pub Joins : List GeneratedStep → GeneratedEdge → Type 0
Joins steps e =
    In e.source_step_name (map (λ s. s.name) steps)
    × In e.target_step_name (map (λ s. s.name) steps)

-- A workflow with a step, whose steps have known types and whose edges join its steps.
pub record IsSound (types : Details) (r : ToolResult) : Type 0 where
  pub some_step : r.steps ≢ []
  pub known : All (λ s. Has s.step_type types) r.steps
  pub joined : All (Joins r.steps) r.edges

module _ (types : Details) (new_id : ℕ → Text) where
  abbrev EdgeFiled : Details → GeneratedEdge → Type 0
  EdgeFiled names e = Has e.source_step_name names × Has e.target_step_name names

  check_end-found :
      (names : Details) (key name : Text) (bad : Details)
      → check_end types new_id names key name bad ≡ []
      → Has name names × (bad ≡ [])
  check_end-found names key name bad = go (lookup name names) refl
    where
      go :
          (o : Option Text)
          → lookup name names ≡ o
          → (let out : Details = elim o [
            | none ↦ insert key (codes "references unknown step: " ++ name) bad
            | some _ ↦ bad
          ] in
              out ≡ [])
          → Has name names × (bad ≡ [])
      go none is e = absurd (insert-full key (codes "references unknown step: " ++ name) bad e)
      go (some id) is e = ((id, is), e)

  check_edges-found :
      (names : Details) (i : ℕ) (bad : Details) (l : List GeneratedEdge)
      → check_edges types new_id names i bad l ≡ []
      → All (EdgeFiled names) l × (bad ≡ [])
  unfolding check_edges
  check_edges-found names i bad [] h = (tt, h)
  check_edges-found names i bad (e ∷ l) h =
      let (rest, both) =
        check_edges-found names (suc i)
          (check_end types new_id names (target_key types new_id i) e.target_step_name
            (check_end types new_id names (source_key types new_id i) e.source_step_name bad))
          l h in
      let (target, first) =
        check_end-found names (target_key types new_id i) e.target_step_name
          (check_end types new_id names (source_key types new_id i) e.source_step_name bad) both in
      let (source, none_bad) =
        check_end-found names (source_key types new_id i) e.source_step_name bad first in
      (((source, target), rest), none_bad)

  check_end-clean :
      (names : Details) (key name : Text) (bad : Details)
      → Has name names
      → check_end types new_id names key name bad ≡ bad
  check_end-clean names key name bad (id, is) =
      subst
        (λ o.
          (let out : Details = elim o [
            | none ↦ insert key (codes "references unknown step: " ++ name) bad
            | some _ ↦ bad
          ] in
            out ≡ bad))
        (sym is) refl

  check_edges-clean :
      (names : Details) (i : ℕ) (bad : Details) (l : List GeneratedEdge)
      → All (EdgeFiled names) l
      → check_edges types new_id names i bad l ≡ bad
  unfolding check_edges
  check_edges-clean names i bad [] h = refl
  check_edges-clean names i bad (e ∷ l) ((source, target), h) =
      ap (λ b. check_edges types new_id names (suc i) b l)
        (check_end-clean names (target_key types new_id i) e.target_step_name
            (check_end types new_id names (source_key types new_id i) e.source_step_name bad) target
          ∙ check_end-clean names (source_key types new_id i) e.source_step_name bad source)
      ∙ check_edges-clean names (suc i) bad l h

  -- What is filed under a name is the id of a step of that name.
  Joins-filed :
      (steps : List GeneratedStep) (c : Checked)
      → Resolved types new_id steps [] [] c
      → (l : List GeneratedEdge) → All (Joins steps) l ↔ All (EdgeFiled c.step_name_to_id) l
  Joins-filed steps c r [] = (λ h. tt, λ h. tt)
  Joins-filed steps c r (e ∷ l) = (
    λ ((s, t), h). (
      (r.filed_all e.source_step_name (inr s), r.filed_all e.target_step_name (inr t)),
      (Joins-filed steps c r l).0 h,
    ),
    λ ((s, t), h). (
      (
        named e.source_step_name (r.filed e.source_step_name s),
        named e.target_step_name (r.filed e.target_step_name t),
      ),
      (Joins-filed steps c r l).1 h,
    ),
  )
    where
      named :
          (k : Text) → Has k [] ⊎ In k (map (λ s. s.name) steps) → In k (map (λ s. s.name) steps)
      named k (inl (v, no_way)) = unfold lookup in absurd (cc)
      named k (inr i) = i

-- What the answer says of a sound workflow: a step for each, with its name, type and config and the id of
-- that type, the edges, the summary and the schema as they came, and as missing the secrets that a text
-- in some config refers to and that do not exist.
pub record Answered (types : Details) (existing : List Text) (r : ToolResult) (a : GenerateResponse)
    : Type 0 where
  pub names : map (λ s. s.name) a.steps ≡ map (λ s. s.name) r.steps
  pub step_types : map (λ s. s.step_type) a.steps ≡ map (λ s. s.step_type) r.steps
  pub configs : map (λ s. s.config) a.steps ≡ map (λ s. s.config) r.steps
  pub type_ids : All (λ s. lookup s.step_type types ≡ some s.step_type_id) a.steps
  pub edges : a.edges ≡ r.edges
  pub summary : a.summary ≡ r.summary
  pub input_schema : a.input_schema ≡ r.input_schema
  pub missing : (k : Text) → In k a.missing_secrets ↔ (StepsMention k r.steps × (In k existing → ⊥))

module _ (types : Details) (new_id : ℕ → Text) (existing : List Text) (r : ToolResult) where
  abbrev checked : List GeneratedStep → Checked
  checked l = check_steps types new_id 0 [] [] l

  answer-Answered :
      (c : Checked)
      → Resolved types new_id r.steps [] [] c
      → Answered types existing r (record {
        steps = c.response_steps;
        edges = r.edges;
        summary = r.summary;
        input_schema = r.input_schema;
        missing_secrets = scan_steps existing r.steps [];
      })
  answer-Answered c h = record {
    names = h.answered;
    step_types = h.typed;
    configs = h.configured;
    type_ids = h.type_ids;
    edges = refl;
    summary = refl;
    input_schema = refl;
    missing = scan_steps-In existing r.steps;
  }

  abbrev the_answer : Checked → GenerateResponse
  the_answer c = record {
    steps = c.response_steps;
    edges = r.edges;
    summary = r.summary;
    input_schema = r.input_schema;
    missing_secrets = scan_steps existing r.steps [];
  }

  sound-ok :
      (l : List GeneratedStep)
      → r.steps ≡ l
      → IsSound types r
      → enrich_some types new_id existing r l ≡ ok (the_answer (checked r.steps))
  sound-ok [] is h = absurd (h.some_step is)
  sound-ok (s ∷ l) is h =
      let resolved = check_steps-Resolved types new_id 0 [] [] r.steps h.known in
      let edges_clean =
        check_edges-clean types new_id (checked r.steps).step_name_to_id 0 [] r.edges
          ((Joins-filed types new_id r.steps (checked r.steps) resolved r.edges).0 h.joined) in
      ap (λ t. after_steps types new_id existing r (checked t) (checked t).invalid_types) (sym is)
      ∙ ap (after_steps types new_id existing r (checked r.steps)) resolved.no_more
      ∙ ap (after_edges types new_id existing r (checked r.steps)) edges_clean

  -- A workflow whose steps have known types and whose edges join its steps by their names, with a step
  -- at least, is accepted, and the answer says what it should: a step for each, with its name, type and
  -- config and the id of that type, the edges, the summary and the schema as they came. As missing it
  -- names exactly the keys that do not exist of which some text in a config has {{secrets.key}}, the key
  -- not empty and without `}`, where the expressions of a text are read from left to right and do not
  -- overlap; with blanks inside the braces, {{ secrets.key }} names none.
  pub enrich_result-Answered :
      IsSound types r
      → (a : GenerateResponse) × (enrich_result types new_id existing r ≡ ok a)
        × Answered types existing r a
  unfolding enrich_result
  enrich_result-Answered h = (
    the_answer (checked r.steps),
    sound-ok r.steps refl h,
    answer-Answered (checked r.steps) (check_steps-Resolved types new_id 0 [] [] r.steps h.known),
  )

  accepted-IsSound :
      (l : List GeneratedStep) (a : GenerateResponse)
      → r.steps ≡ l
      → enrich_some types new_id existing r l ≡ ok a
      → IsSound types r
  accepted-IsSound [] a is h = absurd (cc)
  accepted-IsSound (s ∷ l) a is h = types_fine (checked (s ∷ l)).invalid_types refl h
    where
      sound :
          (checked (s ∷ l)).invalid_types ≡ []
          → check_edges types new_id (checked (s ∷ l)).step_name_to_id 0 [] r.edges ≡ []
          → IsSound types r
      sound no_bad no_bad_edge =
          let known = (check_steps-IsKnown types new_id 0 [] [] (s ∷ l) no_bad).0 in
          let resolved = check_steps-Resolved types new_id 0 [] [] (s ∷ l) known in
          let filed =
            (check_edges-found types new_id (checked (s ∷ l)).step_name_to_id 0 [] r.edges
              no_bad_edge).0 in
          subst
            (λ t.
              (t ≢ [])
              → All (λ s. Has s.step_type types) t
              → All (Joins t) r.edges
              → IsSound types r)
            is (λ full known joined. record { some_step = full; known = known; joined = joined })
            (λ e. cc) known
            ((Joins-filed types new_id (s ∷ l) (checked (s ∷ l)) resolved r.edges).1 filed)

      edges_fine :
          (checked (s ∷ l)).invalid_types ≡ []
          → (d : Details)
          → check_edges types new_id (checked (s ∷ l)).step_name_to_id 0 [] r.edges ≡ d
          → after_edges types new_id existing r (checked (s ∷ l)) d ≡ ok a
          → IsSound types r
      edges_fine no_bad [] e h = sound no_bad e
      edges_fine no_bad (d ∷ ds) e h = absurd (cc)

      types_fine :
          (d : Details)
          → (checked (s ∷ l)).invalid_types ≡ d
          → after_steps types new_id existing r (checked (s ∷ l)) d ≡ ok a
          → IsSound types r
      types_fine [] e h = edges_fine e _ refl h
      types_fine (d ∷ ds) e h = absurd (cc)

  -- And no other workflow is accepted.
  pub enrich_result-IsSound :
      (a : GenerateResponse) → enrich_result types new_id existing r ≡ ok a → IsSound types r
  unfolding enrich_result
  enrich_result-IsSound a h = accepted-IsSound r.steps a refl h
