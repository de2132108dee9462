-- ===== src/Engine/Graph/Closed.antt =====
-- Every step leads to a step of the workflow or to the target of one of its edges.
use mathlib.Core.List.{map-append}
use react_go_workflow.Prelude.{
  ◌+◌, ◌≡◌, refl, inl, inr, Bool-cases, List, [], ◌∷◌, ◌++◌, map, arith, ap, suc, All, In,
  In-append_left, In-append_right, In-map, ◌==◌, length, length-append,
}
use react_go_workflow.Engine.Types.{Uuid, Step, Edge, EdgeType, normal, error, Workflow}
use react_go_workflow.Engine.Graph.{
  Platform, Graph, targets, downstream, empty_graph, append_at, add_edge_of, add_edge, build_graph,
}
use react_go_workflow.Engine.Graph.Rule.{build_graph_ind}

abbrev pub reachable : Workflow → List Uuid
reachable wf = targets wf.edges ++ map (λ s. s.id) wf.steps

All-append :
    (all xs ys : List Uuid)
    → All (λ j. In j all) xs
    → All (λ j. In j all) ys
    → All (λ j. In j all) (xs ++ ys)
All-append all [] ys a b = b
All-append all (x ∷ xs) ys a b = (a.0, All-append all xs ys a.1 b)

record IsWithin (all : List Uuid) (g : Graph) : Type 0 where
  by_edges : (id : Uuid) → All (λ j. In j all) (targets (g.normal_edges id))
  by_refs : (id : Uuid) → All (λ j. In j all) (g.implicit_downstream id)

module _ (all : List Uuid) where
  All-append_at :
      (m : Uuid → List Uuid) (k v : Uuid)
      → ((i : Uuid) → All (λ j. In j all) (m i))
      → In v all
      → (i : Uuid) → All (λ j. In j all) (append_at m k v i)
  All-append_at m k v h n i = elim (Bool-cases (k == i)) [
    | inl hit ↦ rw hit (All-append all (m k) (v ∷ []) (h k) (n, tt))
    | inr miss ↦ rw miss (h i)
  ]

  All-targets-append_at :
      (m : Uuid → List Edge) (k : Uuid) (e : Edge)
      → ((i : Uuid) → All (λ j. In j all) (targets (m i)))
      → In e.target_step_id all
      → (i : Uuid) → All (λ j. In j all) (targets (append_at m k e i))
  All-targets-append_at m k e h n i = elim (Bool-cases (k == i)) [
    | inl hit ↦
        rw (hit, map-append (λ (x : Edge). x.target_step_id) (m k) (e ∷ []))
          (All-append all (targets (m k)) (e.target_step_id ∷ []) (h k) (n, tt))
    | inr miss ↦ rw miss (h i)
  ]

  add_edge-IsWithin :
      (e : Edge) (g : Graph)
      → In e.target_step_id all
      → IsWithin all g
      → IsWithin all (add_edge e g)
  unfolding add_edge
  add_edge-IsWithin e g n w = go e.edge_type
    where
      go : (k : EdgeType) → IsWithin all (add_edge_of k e g)
      go error = record { by_edges = w.by_edges; by_refs = w.by_refs }
      go normal = record {
        by_edges = All-targets-append_at g.normal_edges e.source_step_id e w.by_edges n;
        by_refs = w.by_refs;
      }

pub downstream-reachable :
    (p : Platform) (wf : Workflow) (id : Uuid)
    → All (λ j. In j (reachable wf)) (downstream (build_graph p wf) id)
downstream-reachable p wf id = All-append all _ _ (w.by_edges id) (w.by_refs id)
  where
    all : List Uuid
    all = reachable wf

    w : IsWithin all (build_graph p wf)
    w =
        build_graph_ind p wf (IsWithin all)
          (record {
            edge = λ e g i v.
                add_edge-IsWithin all e g
                  (In-append_left _ (targets wf.edges) _ (In-map _ e wf.edges i)) v;
            mark = λ keys g v. record { by_edges = v.by_edges; by_refs = v.by_refs };
            dependency = λ source s g i v. record {
              by_edges = v.by_edges;
              by_refs =
                  All-append_at all g.implicit_downstream source s.id v.by_refs
                    (In-append_right _ (targets wf.edges) _ (In-map _ s wf.steps i));
            };
          })
          (unfold empty_graph in record { by_edges = λ i. tt; by_refs = λ i. tt })

pub length-map : {A B : Type 0} (f : A → B) (xs : List A) → length (map f xs) ≡ length xs
length-map f [] = refl
length-map f (x ∷ xs) = ap suc (length-map f xs)

pub length-reachable : (wf : Workflow) → length (reachable wf) ≡ length wf.edges + length wf.steps
length-reachable wf = omega (
  arith,
  length-append (targets wf.edges) (map (λ s. s.id) wf.steps),
  length-map (λ (e : Edge). e.target_step_id) wf.edges,
  length-map (λ (s : Step). s.id) wf.steps,
)
