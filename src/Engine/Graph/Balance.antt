-- ===== src/Engine/Graph/Balance.antt =====
-- The in-degrees, the lists of dependencies and the lists of outgoing edges agree.
use mathlib.Core.List.{map-append}
use react_go_workflow.Prelude.{
  ℕ, ◌+◌, ◌≡◌, refl, inl, inr, pos, List, [], ◌∷◌, arith, Bool-cases, count_if, count_if-append,
  length, length-append, ◌==◌, if◌then◌else◌,
}
use react_go_workflow.Engine.Types.{Uuid, Step, Edge, EdgeType, normal, error, Workflow}
use react_go_workflow.Engine.Graph.Rule.{build_graph_ind}
use react_go_workflow.Engine.Graph.{
  Platform, Graph, targets, downstream, empty_graph, append_at, add_edge_of, add_edge,
  add_dependency, build_graph,
}

-- How often an id is listed.
abbrev pub times : Uuid → List Uuid → ℕ
times id = count_if (λ j. j == id)

pub record IsBalanced (g : Graph) : Type 0 where
  pub degree : (t : Uuid) → g.in_degree t ≡ pos (length (g.normal_deps t))
  pub agree : (s t : Uuid) → times t (downstream g s) ≡ times s (g.normal_deps t)

times-downstream :
    (g : Graph) (s t : Uuid)
    → times t (downstream g s)
      ≡ times t (targets (g.normal_edges s)) + times t (g.implicit_downstream s)
times-downstream g s t = count_if-append _ (targets (g.normal_edges s)) _

times-append_at :
    (m : Uuid → List Uuid) (k v i j : Uuid)
    → times j (append_at m k v i) ≡ times j (m i) + (if k == i then times j (v ∷ []) else 0)
times-append_at m k v i j = elim (Bool-cases (k == i)) [
  | inl hit ↦ rw hit (ground (arith, count_if-append (λ x. x == j) (m k) (v ∷ [])))
  | inr miss ↦ rw miss (omega arith)
]

times-targets-append_at :
    (m : Uuid → List Edge) (k : Uuid) (e : Edge) (i j : Uuid)
    → times j (targets (append_at m k e i))
      ≡ times j (targets (m i)) + (if k == i then times j (e.target_step_id ∷ []) else 0)
times-targets-append_at m k e i j = elim (Bool-cases (k == i)) [
  | inl hit ↦
      rw (hit, map-append (λ (x : Edge). x.target_step_id) (m k) (e ∷ []))
        (ground (arith, count_if-append (λ x. x == j) (targets (m k)) (e.target_step_id ∷ [])))
  | inr miss ↦ rw miss (omega arith)
]

length-append_at :
    (m : Uuid → List Uuid) (k v i : Uuid)
    → length (append_at m k v i) ≡ length (m i) + (if k == i then 1 else 0)
length-append_at m k v i = elim (Bool-cases (k == i)) [
  | inl hit ↦ rw hit (ground (arith, length-append (m k) (v ∷ [])))
  | inr miss ↦ rw miss (omega arith)
]

one_edge :
    (a b s t : Uuid)
    → (if a == s then times t (b ∷ []) else 0) ≡ (if b == t then times s (a ∷ []) else 0)
one_edge a b s t = ground arith

empty_graph-IsBalanced : IsBalanced empty_graph
unfolding empty_graph
empty_graph-IsBalanced = record { degree = λ t. refl; agree = λ s t. refl }

add_edge-IsBalanced : (e : Edge) (g : Graph) → IsBalanced g → IsBalanced (add_edge e g)
unfolding add_edge
add_edge-IsBalanced e g b = go e.edge_type
  where
    source : Uuid
    source = e.source_step_id

    go : (k : EdgeType) → IsBalanced (add_edge_of k e g)
    go error = record { degree = b.degree; agree = b.agree }
    go normal = record {
      degree = λ t. ground (
        arith,
        b.degree t,
        b.degree e.target_step_id,
        length-append_at g.normal_deps e.target_step_id source t,
      );
      agree = λ s t. omega (
        arith,
        times-downstream (add_edge_of normal e g) s t,
        times-downstream g s t,
        b.agree s t,
        times-targets-append_at g.normal_edges source e s t,
        times-append_at g.normal_deps e.target_step_id source t s,
        one_edge source e.target_step_id s t,
      );
    }

add_dependency-IsBalanced :
    (p : Platform) (steps : List Step) (source target : Uuid) (g : Graph)
    → IsBalanced g
    → IsBalanced (add_dependency p steps source target g)
add_dependency-IsBalanced p steps source target g b = record {
  degree = λ t.
      ground (arith, b.degree t, b.degree target, length-append_at g.normal_deps target source t);
  agree = λ s t. omega (
    arith,
    times-downstream (add_dependency p steps source target g) s t,
    times-downstream g s t,
    b.agree s t,
    times-append_at g.implicit_downstream source target s t,
    times-append_at g.normal_deps target source t s,
    one_edge source target s t,
  );
}

-- In the graph of every workflow the in-degree of a step is the number of its dependencies, and a
-- step leads to another as often as that one depends on it.
pub build_graph-IsBalanced : (p : Platform) (wf : Workflow) → IsBalanced (build_graph p wf)
build_graph-IsBalanced p wf =
    build_graph_ind p wf IsBalanced
      (record {
        edge = λ e g _. add_edge-IsBalanced e g;
        mark = λ keys g b. record { degree = b.degree; agree = b.agree };
        dependency = λ source s g _. add_dependency-IsBalanced p wf.steps source s.id g;
      })
      empty_graph-IsBalanced
