-- ===== src/Engine/Graph/Edges.antt =====
-- The edges of the workflow in its graph.
use react_go_workflow.Prelude.{
  ◌≡◌, refl, sym, inl, inr, ◌⊎◌, List, [], ◌∷◌, ◌++◌, Bool-cases, In, In-append_left,
  In-append_right, ◌==◌, ==_refl, ==_iff, subst,
}
use react_go_workflow.Engine.Types.{Uuid, Edge, EdgeType, normal, error, Workflow}
use react_go_workflow.Engine.Graph.{
  Platform, Graph, empty_graph, append_at, add_edge_of, add_edge, add_edges, build_graph,
}
use react_go_workflow.Engine.Graph.Rule.{
  BuildRule, build_graph_ind, add_edges_ind, mark_existing_ind, add_implicit_ind,
}

pub In-append_at_old :
    {V : Type 0} (m : Uuid → List V) (k : Uuid) (v : V) (i : Uuid) (x : V)
    → In x (m i)
    → In x (append_at m k v i)
In-append_at_old m k v i x h = elim (Bool-cases (k == i)) [
  | inl hit ↦
      rw hit
        (In-append_left x (m k) (v ∷ []) (subst (λ j. In x (m j)) (sym ((==_iff k i).0 hit)) h))
  | inr miss ↦ rw miss h
]

pub In-append_at_new :
    {V : Type 0} (m : Uuid → List V) (k : Uuid) (v : V) → In v (append_at m k v k)
In-append_at_new m k v = rw (==_refl k) (In-append_right v (m k) (v ∷ []) (inl refl))

module _ (p : Platform) (wf : Workflow) where
  -- The error edges of the graph are those of the workflow.
  abbrev pub IsErrorEdge : Edge → Type 0
  IsErrorEdge e = In e wf.edges × (e.edge_type ≡ error)

  abbrev OnlyErrors : Graph → Type 0
  OnlyErrors g = (s : Uuid) (e : Edge) → In e (g.error_edges s) → IsErrorEdge e

  OnlyErrors-add_edge :
      (e : Edge) (g : Graph) → In e wf.edges → OnlyErrors g → OnlyErrors (add_edge e g)
  unfolding add_edge
  OnlyErrors-add_edge e g i h = go e.edge_type refl
    where
      go : (k : EdgeType) → e.edge_type ≡ k → OnlyErrors (add_edge_of k e g)
      go normal is s x j = h s x j
      go error is s x j = elim (Bool-cases (e.source_step_id == s)) [
        | inl hit ↦ elim (In-appended (g.error_edges e.source_step_id) (rw hit at j)) [
          | inl old ↦ h e.source_step_id x old
          | inr new ↦ subst IsErrorEdge new (i, is)
        ]
        | inr miss ↦ h s x (rw miss at j)
      ]
        where
          In-appended : (l : List Edge) → In x (l ++ e ∷ []) → In x l ⊎ (e ≡ x)
          In-appended [] (inl a) = inr a
          In-appended [] (inr b) = absurd b
          In-appended (y ∷ l) (inl a) = inl (inl a)
          In-appended (y ∷ l) (inr b) = elim (In-appended l b) [
            | inl c ↦ inl (inr c)
            | inr c ↦ inr c
          ]

  pub build_graph-OnlyErrors :
      (s : Uuid) (e : Edge) → In e ((build_graph p wf).error_edges s) → IsErrorEdge e
  build_graph-OnlyErrors =
      build_graph_ind p wf OnlyErrors
        (record {
          edge = OnlyErrors-add_edge;
          mark = λ keys g h. h;
          dependency = λ source s g i h. h;
        })
        (unfold empty_graph in λ s e i. absurd i)

  -- A dependency stays.
  module _ (s t : Uuid) where
    abbrev pub Depends : Graph → Type 0
    Depends g = In s (g.normal_deps t)

    Depends-add_edge : (e : Edge) (g : Graph) → Depends g → Depends (add_edge e g)
    unfolding add_edge
    Depends-add_edge e g h = go e.edge_type
      where
        go : (k : EdgeType) → Depends (add_edge_of k e g)
        go error = h
        go normal = In-append_at_old g.normal_deps e.target_step_id e.source_step_id t s h

    pub Depends-rule : BuildRule p wf Depends
    Depends-rule = record {
      edge = λ e g i h. Depends-add_edge e g h;
      mark = λ keys g h. h;
      dependency = λ source x g i h. In-append_at_old g.normal_deps x.id source t s h;
    }

  pub add_edges-Depends :
      (e : Edge) (edges : List Edge) (g : Graph)
      → ((x : Edge) → In x edges → In x wf.edges)
      → In e edges
      → e.edge_type ≡ normal
      → Depends e.source_step_id e.target_step_id (add_edges edges g)
  unfolding add_edges add_edge
  add_edges-Depends e [] g sub i is = absurd i
  add_edges-Depends e (x ∷ edges) g sub (inl same) is =
      add_edges_ind p wf (Depends e.source_step_id e.target_step_id)
        (Depends-rule e.source_step_id e.target_step_id) edges (add_edge x g) (λ y j. sub y (inr j))
        (subst (λ y. Depends e.source_step_id e.target_step_id (add_edge y g)) (sym same) new)
    where
      new : Depends e.source_step_id e.target_step_id (add_edge_of e.edge_type e g)
      new = rw is (In-append_at_new g.normal_deps e.target_step_id e.source_step_id)
  add_edges-Depends e (x ∷ edges) g sub (inr i) is =
      add_edges-Depends e edges (add_edge x g) (λ y j. sub y (inr j)) i is

  -- The target of a normal edge of the workflow depends on its source.
  pub normal_edge-Depends :
      (e : Edge)
      → In e wf.edges
      → e.edge_type ≡ normal
      → In e.source_step_id ((build_graph p wf).normal_deps e.target_step_id)
  unfolding build_graph
  normal_edge-Depends e i is =
      let rule = Depends-rule e.source_step_id e.target_step_id in
      add_implicit_ind p wf (Depends e.source_step_id e.target_step_id) rule wf.steps _ (λ x j. j)
        (mark_existing_ind p wf (Depends e.source_step_id e.target_step_id) rule wf.edges _
          (add_edges-Depends e wf.edges empty_graph (λ x j. j) i is))
