-- ===== src/Engine/Graph/Rule.antt =====
-- A proof rule for the graph of a workflow: what its building goes through.
use react_go_workflow.Prelude.{refl, inl, inr, ◌||◌, List, [], ◌∷◌, Bool-cases, In, ◌==◌, Text}
use react_go_workflow.Engine.Refs.{extract_step_refs}
use react_go_workflow.Engine.Types.{Uuid, Step, Edge, Workflow}
use react_go_workflow.Engine.Graph.{
  Platform, Graph, empty_graph, add_edge, add_edges, mark_existing, add_dependency,
  add_ref_dependency, add_ref_dependencies, add_implicit, build_graph, resolve_ref, contains,
  edge_key,
}

module _ (p : Platform) (wf : Workflow) where
  -- What has to be shown of a property of graphs.
  pub record BuildRule (P : Graph → Type 0) : Type 0 where
    pub edge : (e : Edge) (g : Graph) → In e wf.edges → P g → P (add_edge e g)
    pub mark : (keys : List Text) (g : Graph) → P g → P (record g { existing_edges = keys })
    pub dependency :
        (source : Uuid) (s : Step) (g : Graph)
        → In s wf.steps
        → P g
        → P (add_dependency p wf.steps source s.id g)

  module _ (P : Graph → Type 0) (rule : BuildRule P) where
    pub add_edges_ind :
        (edges : List Edge) (g : Graph)
        → ((e : Edge) → In e edges → In e wf.edges)
        → P g
        → P (add_edges edges g)
    unfolding add_edges
    add_edges_ind [] g sub h = h
    add_edges_ind (e ∷ edges) g sub h =
        add_edges_ind edges _ (λ x i. sub x (inr i)) (rule.edge e g (sub e (inl refl)) h)

    pub mark_existing_ind : (edges : List Edge) (g : Graph) → P g → P (mark_existing p edges g)
    unfolding mark_existing
    mark_existing_ind [] g h = h
    mark_existing_ind (e ∷ edges) g h = mark_existing_ind edges _ (rule.mark _ g h)

    add_ref_dependency_ind :
        (s : Step) (ref : Text) (g : Graph)
        → In s wf.steps
        → P g
        → P (add_ref_dependency p wf.steps s.id ref g)
    unfolding add_ref_dependency
    add_ref_dependency_ind s ref g i h =
        let source = resolve_ref p wf.steps ref in
        elim (Bool-cases (source == 0 || source == s.id)) [
          | inl odd ↦ rw (odd, add_ref_dependency) h
          | inr new ↦ elim (Bool-cases (contains (edge_key p source s.id) g.existing_edges)) [
            | inl old ↦ rw (new, old, add_ref_dependency) h
            | inr fresh ↦ rw (new, fresh, add_ref_dependency) (rule.dependency source s g i h)
          ]
        ]

    pub add_ref_dependencies_ind :
        (s : Step) (refs : List Text) (g : Graph)
        → In s wf.steps
        → P g
        → P (add_ref_dependencies p wf.steps s.id refs g)
    unfolding add_ref_dependencies
    add_ref_dependencies_ind s [] g i h = h
    add_ref_dependencies_ind s (ref ∷ refs) g i h =
        add_ref_dependencies_ind s refs _ i (add_ref_dependency_ind s ref g i h)

    pub add_implicit_ind :
        (rest : List Step) (g : Graph)
        → ((s : Step) → In s rest → In s wf.steps)
        → P g
        → P (add_implicit p wf.steps rest g)
    unfolding add_implicit
    add_implicit_ind [] g sub h = h
    add_implicit_ind (s ∷ rest) g sub h =
        add_implicit_ind rest _ (λ x i. sub x (inr i))
          (add_ref_dependencies_ind s (p.visit (extract_step_refs s.config)) g (sub s (inl refl)) h)

    pub build_graph_ind : P empty_graph → P (build_graph p wf)
    unfolding build_graph
    build_graph_ind start =
        add_implicit_ind wf.steps _ (λ x i. i)
          (mark_existing_ind wf.edges _ (add_edges_ind wf.edges _ (λ x i. i) start))
