-- ===== src/Engine/Graph.antt =====
-- executor.go, executeDAG up to its loop: the lookup maps, the dependency graph with its in-degrees,
-- and the implicit dependencies that come from the references in the steps' configs.
pub mod Rule
pub mod Balance
pub mod Closed
pub mod Edges
pub mod References
pub mod Named
pub mod Linked
use react_go_workflow.Prelude.{
  ℕ, ℤ, pos, suc_ℤ, Bool, true, false, ◌||◌, Option, none, some, List, [], ◌∷◌, ◌++◌, map, Text,
  codes, text_eq, lookup, insert, ◌==◌, if◌then◌else◌, update,
}
use react_go_workflow.Engine.Refs.{extract_step_refs}
use react_go_workflow.Engine.Types.{Uuid, Step, Edge, EdgeType, normal, error, Workflow}

-- What the program takes from the uuid package, from the runtime and from strconv: how ids are
-- written and read, the order in which `range` visits a set, and how `%v` prints a float.
pub record Platform : Type 0 where
  pub uuid_string : Uuid → Text
  pub uuid_parse : Text → Option Uuid
  pub visit : List Text → List Text
  pub format_float : ℕ → Text

-- stepsByID; of two steps with one id the last is found.
unfoldable pub step_by_id : List Step → Uuid → Option Step
step_by_id [] id = none
step_by_id (s ∷ steps) id = elim (step_by_id steps id) [
  | some later ↦ some later
  | none ↦ if s.id == id then some s else none
]

-- stepsByName
unfoldable pub step_by_name : List Step → Text → Option Step
step_by_name [] name = none
step_by_name (s ∷ steps) name = elim (step_by_name steps name) [
  | some later ↦ some later
  | none ↦ if text_eq s.name name then some s else none
]

pub record Graph : Type 0 where
  pub normal_deps : Uuid → List Uuid
  pub normal_edges : Uuid → List Edge
  pub error_edges : Uuid → List Edge
  pub implicit_downstream : Uuid → List Uuid
  pub in_degree : Uuid → ℤ
  pub existing_edges : List Text

abbrev pub targets : List Edge → List Uuid
targets = map (λ e. e.target_step_id)

-- Where a finished or skipped step leads, in the order in which skipBranch goes on.
abbrev pub downstream : Graph → Uuid → List Uuid
downstream g id = targets (g.normal_edges id) ++ g.implicit_downstream id

unfoldable pub empty_graph : Graph
empty_graph = record {
  normal_deps = λ _. [];
  normal_edges = λ _. [];
  error_edges = λ _. [];
  implicit_downstream = λ _. [];
  in_degree = λ _. pos 0;
  existing_edges = [];
}

-- m[k] = append(m[k], v)
abbrev pub append_at {ℓ} : {V : Type ℓ} → (ℕ → List V) → ℕ → V → ℕ → List V
append_at m k v = update m k (m k ++ v ∷ [])

abbrev pub add_edge_of : EdgeType → Edge → Graph → Graph
add_edge_of error e g = record g { error_edges = append_at g.error_edges e.source_step_id e }
add_edge_of normal e g = record g {
  normal_deps = append_at g.normal_deps e.target_step_id e.source_step_id;
  normal_edges = append_at g.normal_edges e.source_step_id e;
  in_degree = update g.in_degree e.target_step_id (suc_ℤ (g.in_degree e.target_step_id));
}

-- The body of the loop over the workflow's edges.
unfoldable pub add_edge : Edge → Graph → Graph
add_edge e g = add_edge_of e.edge_type e g

unfoldable pub add_edges : List Edge → Graph → Graph
unfolding add_edge
add_edges [] g = g
add_edges (e ∷ edges) g = add_edges edges (add_edge e g)

unfoldable pub contains : Text → List Text → Bool
contains k [] = false
contains k (j ∷ keys) = text_eq j k || contains k keys

module _ (p : Platform) where
  -- sourceID.String()+"->"+targetID.String()
  abbrev pub edge_key : Uuid → Uuid → Text
  edge_key source target = p.uuid_string source ++ (codes "->" ++ p.uuid_string target)

  unfoldable pub mark_existing : List Edge → Graph → Graph
  mark_existing [] g = g
  mark_existing (e ∷ edges) g =
      mark_existing edges (record g {
        existing_edges = edge_key e.source_step_id e.target_step_id ∷ g.existing_edges;
      })

  module _ (steps : List Step) where
    abbrev known_id : Option Uuid → Uuid
    known_id none = 0
    known_id (some id) = elim (step_by_id steps id) [ none ↦ 0 | some _ ↦ id ]

    -- A reference is a step's name, or else the id of a step; 0 where it is neither.
    unfoldable pub resolve_ref : Text → Uuid
    unfolding step_by_id step_by_name
    resolve_ref ref = elim (step_by_name steps ref) [
      | some s ↦ s.id
      | none ↦ known_id (p.uuid_parse ref)
    ]

    abbrev pub add_dependency : Uuid → Uuid → Graph → Graph
    add_dependency source target g = record g {
      existing_edges = edge_key source target ∷ g.existing_edges;
      normal_deps = append_at g.normal_deps target source;
      implicit_downstream = append_at g.implicit_downstream source target;
      in_degree = update g.in_degree target (suc_ℤ (g.in_degree target));
    }

    -- The body of the loop over the references of one step.
    unfoldable pub add_ref_dependency : Uuid → Text → Graph → Graph
    unfolding contains
    add_ref_dependency target ref g =
        let source = resolve_ref ref in
        if source == 0 || source == target
        then g
        else if contains (edge_key source target) g.existing_edges
        then g
        else add_dependency source target g

    unfoldable pub add_ref_dependencies : Uuid → List Text → Graph → Graph
    unfolding add_ref_dependency
    add_ref_dependencies target [] g = g
    add_ref_dependencies target (ref ∷ refs) g =
        add_ref_dependencies target refs (add_ref_dependency target ref g)

    unfoldable pub add_implicit : List Step → Graph → Graph
    unfolding add_ref_dependencies
    add_implicit [] g = g
    add_implicit (s ∷ rest) g =
        add_implicit rest (add_ref_dependencies s.id (p.visit (extract_step_refs s.config)) g)

  unfoldable pub build_graph : Workflow → Graph
  unfolding add_edges mark_existing add_implicit empty_graph resolve_ref extract_step_refs
  build_graph wf =
      add_implicit wf.steps wf.steps (mark_existing wf.edges (add_edges wf.edges empty_graph))
