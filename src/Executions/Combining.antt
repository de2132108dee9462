-- ===== src/Executions/Combining.antt =====
-- The filters of List, one after the other: what all of them mean.
use react_go_workflow.Prelude.{List, [], ◌∷◌, ◌++◌, All, Text}
use react_go_workflow.Executions.Filters.{
  Execution, Predicate, FilterError, Parsed, parsed, refused,
}
use react_go_workflow.Executions.Listing.{combine}
use react_go_workflow.Executions.Meaning.{Passes}
use react_go_workflow.Executions.Dates.{Means}

module _ {A : Type 0} (P : A → Type 0) where
  All-join : (xs ys : List A) → All P xs → All P ys → All P (xs ++ ys)
  All-join [] ys a b = b
  All-join (x ∷ xs) ys a b = (a.0, All-join xs ys a.1 b)

  All-part : (xs ys : List A) → All P (xs ++ ys) → All P xs × All P ys
  All-part [] ys a = (tt, a)
  All-part (x ∷ xs) ys a = ((a.0, (All-part xs ys a.1).0), (All-part xs ys a.1).1)

module _ (Reason : Text → FilterError → Type 0) where
  pub combine-Means :
      (V W : Execution → Type 0) (r s : Parsed (List Predicate))
      → Means V Reason r
      → Means W Reason s
      → Means (λ x. V x × W x) Reason (combine r s)
  combine-Means V W (refused k e) s a b = a
  combine-Means V W (parsed l) (refused k e) a b = b
  combine-Means V W (parsed l) (parsed m) a b = λ x. (
    (λ all. let both = All-part (λ p. Passes p x) l m all in ((a x).0 both.0, (b x).0 both.1)),
    (λ w. All-join (λ p. Passes p x) l m ((a x).1 w.0) ((b x).1 w.1)),
  )

  pub Means-map :
      (V W : Execution → Type 0) (r : Parsed (List Predicate))
      → ((x : Execution) → V x → W x)
      → ((x : Execution) → W x → V x)
      → Means V Reason r
      → Means W Reason r
  Means-map V W (refused k e) f g h = h
  Means-map V W (parsed l) f g h = λ x. ((λ all. f x ((h x).0 all)), (λ w. (h x).1 (g x w)))
