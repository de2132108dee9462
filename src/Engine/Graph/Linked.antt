-- ===== src/Engine/Graph/Linked.antt =====
-- The graph has the dependency of each reference that names a step.
use mathlib.Core.List.{head-eq_of_cons-eq, tail-eq_of_cons-eq}
use react_go_workflow.Prelude.{
  ◌≡◌, ◌≢◌, refl, sym, ap, ◌∙◌, subst, ◌⊎◌, inl, inr, true, false, ◌||◌, Bool-cases, List, [], ◌∷◌,
  ◌++◌, In, Text, codes, text_eq, text_eq_iff, length, ◌==◌, arith,
}
use react_go_workflow.Value.{of_object}
use react_go_workflow.Engine.Refs.{extract_step_refs}
use react_go_workflow.Engine.Types.{Uuid, Step, Edge, EdgeType, normal, error, Workflow}
use react_go_workflow.Engine.Graph.{
  Platform, Graph, empty_graph, add_edge, add_edge_of, add_edges, contains, edge_key, mark_existing,
  resolve_ref, add_dependency, add_ref_dependency, add_ref_dependencies, add_implicit, build_graph,
}
use react_go_workflow.Engine.Graph.Rule.{add_implicit_ind, add_ref_dependencies_ind}
use react_go_workflow.Engine.Graph.Edges.{
  In-append_at_old, In-append_at_new, Depends, Depends-rule, add_edges-Depends,
}
use react_go_workflow.Engine.Graph.References.{Mentions, extract_step_refs-In}
use react_go_workflow.Engine.Graph.Named.{PlatformLaws, Names, resolve_ref-Names}

add_edges-existing :
    (edges : List Edge) (g : Graph) → (add_edges edges g).existing_edges ≡ g.existing_edges
unfolding add_edges add_edge
add_edges-existing [] g = refl
add_edges-existing (e ∷ edges) g = add_edges-existing edges (add_edge e g) ∙ kept e.edge_type
  where
    kept : (k : EdgeType) → (add_edge_of k e g).existing_edges ≡ g.existing_edges
    kept normal = refl
    kept error = refl

none_there : (k : Text) {l : List Text} → l ≡ [] → contains k l ≡ true → ⊥
unfolding contains
none_there k is c = absurd (differs (ap (contains k) (sym is) ∙ c))
  where
    differs : false ≡ true → ⊥
    differs e = absurd cc

-- Two texts that are joined fall apart in one way only, where the first ones are of one length.
split_same : (a b c d : Text) → length a ≡ length b → a ++ c ≡ b ++ d → (a ≡ b) × (c ≡ d)
split_same [] [] c d l is = (refl, is)
split_same [] (y ∷ b) c d l is = absurd (omega (arith, l))
split_same (x ∷ a) [] c d l is = absurd (omega (arith, l))
split_same (x ∷ a) (y ∷ b) c d l is =
    let rest = split_same a b c d (omega (arith, l)) (tail-eq_of_cons-eq is) in
    let heads = head-eq_of_cons-eq is in (ap (λ z. z ∷ a) heads ∙ ap (λ z. y ∷ z) rest.0, rest.1)

module _ (p : Platform) (laws : PlatformLaws p) where
  edge_key-injective : (a b c d : Uuid) → edge_key p a b ≡ edge_key p c d → (a ≡ c) × (b ≡ d)
  edge_key-injective a b c d is =
      let parts =
        split_same (p.uuid_string a) (p.uuid_string c) (codes "->" ++ p.uuid_string b)
          (codes "->" ++ p.uuid_string d) (laws.same_length a c) is in
      (
        laws.injective a c parts.0,
        laws.injective b d (tail-eq_of_cons-eq (tail-eq_of_cons-eq parts.1)),
      )

  module _ (wf : Workflow) where
    -- An error edge of the workflow joins the two.
    abbrev pub ErrorEdge : Uuid → Uuid → Type 0
    ErrorEdge source target =
        (e : Edge) × In e wf.edges
        × (e.edge_type ≡ error)
        × (e.source_step_id ≡ source)
        × (e.target_step_id ≡ target)

    abbrev Linked : Uuid → Uuid → Graph → Type 0
    Linked source target g = In source (g.normal_deps target) ⊎ ErrorEdge source target

    -- A pair that existingEdges has is linked.
    abbrev Marked : Graph → Type 0
    Marked g =
        (source target : Uuid)
        → contains (edge_key p source target) g.existing_edges ≡ true
        → Linked source target g

    key_of :
        (source target s t : Uuid) (keys : List Text)
        → contains (edge_key p source target) (edge_key p s t ∷ keys) ≡ true
        → ((s ≡ source) × (t ≡ target)) ⊎ (contains (edge_key p source target) keys ≡ true)
    unfolding contains
    key_of source target s t keys h =
        elim (Bool-cases (text_eq (edge_key p s t) (edge_key p source target))) [
          | inl same ↦ inl (edge_key-injective s t source target ((text_eq_iff _ _).0 same))
          | inr other ↦ inr (rw other at h)
        ]

    -- The graph with the edges has a dependency for each normal one.
    abbrev HasEdges : Graph → Type 0
    HasEdges g =
        (e : Edge)
        → In e wf.edges
        → e.edge_type ≡ normal
        → In e.source_step_id (g.normal_deps e.target_step_id)

    mark_existing-Marked :
        (edges : List Edge) (g : Graph)
        → ((e : Edge) → In e edges → In e wf.edges)
        → HasEdges g
        → Marked g
        → Marked (mark_existing p edges g)
    unfolding mark_existing
    mark_existing-Marked [] g sub has h = h
    mark_existing-Marked (e ∷ edges) g sub has h =
        mark_existing-Marked edges _ (λ x i. sub x (inr i)) has
          (λ source target c.
            elim (key_of source target e.source_step_id e.target_step_id g.existing_edges c) [
              | inr old ↦ h source target old
              | inl same ↦ of_edge e.edge_type refl source target same
            ])
      where
        of_edge :
            (k : EdgeType)
            → e.edge_type ≡ k
            → (source target : Uuid) → (e.source_step_id ≡ source) × (e.target_step_id ≡ target)
            → Linked source target g
        of_edge error is source target (a, b) = inr (e, sub e (inl refl), is, a, b)
        of_edge normal is source target (a, b) = inl (
            subst (λ x. In x (g.normal_deps target)) a
              (subst (λ y. In e.source_step_id (g.normal_deps y)) b (has e (sub e (inl refl)) is)))

    module _ (target : Step) (mine : In target wf.steps) where
      add_dependency-Marked :
          (source : Uuid) (g : Graph)
          → Marked g
          → Marked (add_dependency p wf.steps source target.id g)
      add_dependency-Marked source g h s t c =
          elim (key_of s t source target.id g.existing_edges c) [
            | inr old ↦ elim (h s t old) [
              | inl there ↦ inl (In-append_at_old g.normal_deps target.id source t s there)
              | inr edge ↦ inr edge
            ]
            | inl (a, b) ↦ inl (
                subst (λ x. In x (new t)) a
                  (subst (λ y. In source (new y)) b
                    (In-append_at_new g.normal_deps target.id source)))
          ]
        where
          new : Uuid → List Uuid
          new = (add_dependency p wf.steps source target.id g).normal_deps

      add_ref_dependency-Marked :
          (ref : Text) (g : Graph)
          → Marked g
          → Marked (add_ref_dependency p wf.steps target.id ref g)
      unfolding add_ref_dependency
      add_ref_dependency-Marked ref g h =
          let source = resolve_ref p wf.steps ref in
          elim (Bool-cases (source == 0 || source == target.id)) [
            | inl odd ↦ rw (odd, add_ref_dependency) h
            | inr new ↦
                elim (Bool-cases (contains (edge_key p source target.id) g.existing_edges)) [
                  | inl old ↦ rw (new, old, add_ref_dependency) h
                  | inr fresh ↦
                      rw (new, fresh, add_ref_dependency) (add_dependency-Marked source g h)
                ]
          ]

      add_ref_dependency-Linked :
          (ref : Text) (g : Graph)
          → Marked g
          → (resolve_ref p wf.steps ref == 0 || resolve_ref p wf.steps ref == target.id) ≡ false
          → Linked
              (resolve_ref p wf.steps ref)
              target.id
              (add_ref_dependency p wf.steps target.id ref g)
      unfolding add_ref_dependency
      add_ref_dependency-Linked ref g h new =
          let source = resolve_ref p wf.steps ref in
          elim (Bool-cases (contains (edge_key p source target.id) g.existing_edges)) [
            | inl old ↦ rw (new, old, add_ref_dependency) (h source target.id old)
            | inr fresh ↦
                rw (new, fresh, add_ref_dependency)
                  (inl (In-append_at_new g.normal_deps target.id source))
          ]

      add_ref_dependencies-Marked :
          (refs : List Text) (g : Graph)
          → Marked g
          → Marked (add_ref_dependencies p wf.steps target.id refs g)
      unfolding add_ref_dependencies
      add_ref_dependencies-Marked [] g h = h
      add_ref_dependencies-Marked (r ∷ refs) g h =
          add_ref_dependencies-Marked refs _ (add_ref_dependency-Marked r g h)

      -- A link stays.
      Linked-refs :
          (s t : Uuid) (refs : List Text) (g : Graph)
          → Linked s t g
          → Linked s t (add_ref_dependencies p wf.steps target.id refs g)
      Linked-refs s t refs g (inr edge) = inr edge
      Linked-refs s t refs g (inl there) = inl (
          add_ref_dependencies_ind p wf (Depends p wf s t) (Depends-rule p wf s t) target refs g
            mine there)

      add_ref_dependencies-Linked :
          (ref : Text) (refs : List Text) (g : Graph)
          → In ref refs
          → Marked g
          → (resolve_ref p wf.steps ref == 0 || resolve_ref p wf.steps ref == target.id) ≡ false
          → Linked
              (resolve_ref p wf.steps ref)
              target.id
              (add_ref_dependencies p wf.steps target.id refs g)
      unfolding add_ref_dependencies
      add_ref_dependencies-Linked ref [] g i h new = absurd i
      add_ref_dependencies-Linked ref (r ∷ refs) g (inl e) h new =
          Linked-refs (resolve_ref p wf.steps ref) target.id refs _ (
            subst
              (λ x.
                Linked (resolve_ref p wf.steps ref) target.id
                  (add_ref_dependency p wf.steps target.id x g))
              (sym e) (add_ref_dependency-Linked ref g h new))
      add_ref_dependencies-Linked ref (r ∷ refs) g (inr i) h new =
          add_ref_dependencies-Linked ref refs _ i (add_ref_dependency-Marked r g h) new

    module _ (s : Step) (ref : Text) (mentioned : Mentions ref (of_object s.config))
        (new : (resolve_ref p wf.steps ref == 0 || resolve_ref p wf.steps ref == s.id)
          ≡ false) where
      add_implicit-Linked :
          (rest : List Step) (g : Graph)
          → ((x : Step) → In x rest → In x wf.steps)
          → In s rest
          → Marked g
          → Linked (resolve_ref p wf.steps ref) s.id (add_implicit p wf.steps rest g)
      unfolding add_implicit
      add_implicit-Linked [] g sub i h = absurd i
      add_implicit-Linked (x ∷ rest) g sub (inr i) h =
          add_implicit-Linked rest _ (λ y j. sub y (inr j)) i
            (add_ref_dependencies-Marked x (sub x (inl refl)) (p.visit (extract_step_refs x.config))
              g h)
      add_implicit-Linked (x ∷ rest) g sub (inl e) h = stays _ (
          subst
            (λ y.
              Linked source s.id
                (add_ref_dependencies p wf.steps y.id (p.visit (extract_step_refs y.config)) g))
            (sym e)
            (add_ref_dependencies-Linked s (subst (λ y. In y wf.steps) e (sub x (inl refl))) ref
              (p.visit (extract_step_refs s.config)) g
              (laws.visits ref (extract_step_refs s.config) (extract_step_refs-In ref s mentioned))
              h new))
        where
          source : Uuid
          source = resolve_ref p wf.steps ref

          stays :
              (g : Graph)
              → Linked source s.id g
              → Linked source s.id (add_implicit p wf.steps rest g)
          stays g (inr edge) = inr edge
          stays g (inl there) = inl (
              add_implicit_ind p wf (Depends p wf source s.id) (Depends-rule p wf source s.id) rest
                g (λ y j. sub y (inr j)) there)

    -- In the graph of the workflow a step depends on each other step that its config refers to, or an
    -- error edge joins the two.
    pub build_graph-Linked :
        (s t : Step) (ref : Text)
        → In s wf.steps
        → In t wf.steps
        → Mentions ref (of_object s.config)
        → Names p wf.steps ref t
        → t.id ≢ 0
        → t.id ≢ s.id
        → Linked t.id s.id (build_graph p wf)
    unfolding build_graph
    build_graph-Linked s t ref i j mentioned named not_nil other =
        let is = resolve_ref-Names p wf.steps ref t j named in
        let new : (resolve_ref p wf.steps ref == 0 || resolve_ref p wf.steps ref == s.id) ≡ false =
          subst (λ x. (x == 0 || x == s.id) ≡ false) (sym is) (ground (arith, not_nil, other)) in
        subst (λ x. Linked x s.id (build_graph p wf)) is
          (add_implicit-Linked s ref mentioned new wf.steps
            (mark_existing p wf.edges (add_edges wf.edges empty_graph)) (λ x k. k) i
            (mark_existing-Marked wf.edges (add_edges wf.edges empty_graph) (λ x k. k)
              (λ e k n. add_edges-Depends p wf e wf.edges empty_graph (λ x l. l) k n)
              (λ source target c.
                absurd
                  (nothing wf.edges empty_graph source target (unfold empty_graph in refl) c))))
      where
        nothing :
            (edges : List Edge) (g : Graph) (source target : Uuid)
            → g.existing_edges ≡ []
            → contains (edge_key p source target) (add_edges edges g).existing_edges ≡ true
            → ⊥
        nothing edges g source target is c =
            none_there (edge_key p source target) (add_edges-existing edges g ∙ is) c
