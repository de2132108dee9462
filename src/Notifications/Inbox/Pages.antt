-- ===== src/Notifications/Inbox/Pages.antt =====
-- internal/notification/handler.go, List: a client that goes from page to page.
use react_go_workflow.Prelude.{
  ℕ, zero, suc, ◌+◌, ◌*◌, ◌≤◌, ◌≡◌, refl, sym, ap, ◌∙◌, true, pos, Option, List, [], ◌∷◌, ◌++◌,
  keep, take, drop, length, Text, codes, arith, subst,
}
use react_go_workflow.Shared.Query.{Query, query_string}
use react_go_workflow.Shared.Pagination.{OffsetPageRequest, parse_offset_page_request}
use react_go_workflow.Notifications.Inbox.Newest.{
  IsNewestFirst, DistinctDates, IsNewestFirst-unique, IsNewestFirst-length,
}
use react_go_workflow.Notifications.Inbox.{
  Stored, matches, ListAnswer, internal, listed, page_of, list,
}

module _ {A : Type 0} where
  take_none : (n : ℕ) → take {A = A} n [] ≡ []
  take_none zero = refl
  take_none (suc n) = refl

  take-drop : (a b : ℕ) (xs : List A) → take (a + b) xs ≡ take a xs ++ take b (drop a xs)
  take-drop zero b xs = ap (λ n. take n xs) (omega arith)
  take-drop (suc a) b [] = take_none (suc a + b) ∙ sym (take_none b)
  take-drop (suc a) b (x ∷ xs) =
      ap (λ n. take n (x ∷ xs)) (sum a b) ∙ ap (λ l. x ∷ l) (take-drop a b xs)
    where
      sum : (a b : ℕ) → suc a + b ≡ suc (a + b)
      sum a b = omega arith

  take_whole : (n : ℕ) (xs : List A) → length xs ≤ n → take n xs ≡ xs
  take_whole zero [] h = refl
  take_whole zero (x ∷ xs) h = absurd (omega (arith, h))
  take_whole (suc n) [] h = refl
  take_whole (suc n) (x ∷ xs) h = ap (λ l. x ∷ l) (take_whole n xs (omega (arith, h)))

-- The notifications of an answer.
abbrev pub rows_of : ListAnswer → List Stored
rows_of internal = []
rows_of (listed rows total page) = rows

abbrev pub total_of : ListAnswer → ℕ
total_of internal = 0
total_of (listed rows total page) = total

-- Those of the first answers, one after the other.
abbrev pub gather : (ℕ → ListAnswer) → ℕ → List Stored
gather answers zero = []
gather answers (suc k) = gather answers k ++ rows_of (answers k)

none_first : (n : ℕ) → 0 ≡ 0 * n
none_first n = omega arith

one_more : (m n : ℕ) → m * n + n ≡ suc m * n
one_more m n = omega arith

module _ (order : ℕ → List Stored → List Stored) (status : Option Text) (m n : ℕ)
    (rows : List Stored) (q : ℕ → Query)
    (ordered : (k : ℕ) (l : List Stored) → IsNewestFirst l (order k l))
    (differ : DistinctDates (keep (matches status) rows))
    (paged : (k : ℕ)
      → k ≤ m
      → parse_offset_page_request (q k) ≡ record { offset = pos (k * n); limit = pos n })
    (filters : (k : ℕ) → k ≤ m → query_string (q k) (codes "status") ≡ status) where
  abbrev found : List Stored
  found = keep (matches status) rows

  -- The order of the first answer is that of all.
  abbrev newest : List Stored
  newest = order 0 found

  list-paged :
      (k : ℕ)
      → k ≤ m
      → list (order k) true true (q k) rows
        ≡ listed
            (take n (drop (k * n) newest))
            (length found)
            (record { offset = pos (k * n); limit = pos n })
  unfolding list
  list-paged k h =
      let answer : OffsetPageRequest → Option Text → ListAnswer = λ p s.
        listed (page_of p (order k (keep (matches s) rows))) (length (keep (matches s) rows)) p in
      let page : OffsetPageRequest = record { offset = pos (k * n); limit = pos n } in
      ap (λ p. answer p (query_string (q k) (codes "status"))) (paged k h)
      ∙ ap (answer page) (filters k h)
      ∙ ap (λ l. listed (take n (drop (k * n) l)) (length found) page)
          (IsNewestFirst-unique found (order k found) newest differ (ordered k found)
            (ordered 0 found))

  gather-take :
      (k : ℕ) → k ≤ m → gather (λ i. list (order i) true true (q i) rows) k ≡ take (k * n) newest
  gather-take zero h = ap (λ i. take i newest) (none_first n)
  gather-take (suc k) h =
      ap (λ x. x ++ rows_of (list (order k) true true (q k) rows))
        (gather-take k (omega (arith, h)))
      ∙ ap (λ x. take (k * n) newest ++ rows_of x) (list-paged k (omega (arith, h)))
      ∙ sym (take-drop (k * n) n newest)
      ∙ ap (λ i. take i newest) (one_more k n)

-- Where the queries work, the table does not change in between, and the database answers each of them
-- with the rows of its filter ordered by their date, the newest first, and no two of those rows have
-- one date: whatever the filter on the status is, a client that asks for pages of one size, one after
-- the other, until they are as many as the total of the first answer needs, gets the notifications
-- that the filter lets through, each as often as it is there, the newest first.
pub list-Pages :
    (order : ℕ → List Stored → List Stored) (status : Option Text) (m n : ℕ) (rows : List Stored)
    (q : ℕ → Query)
    → ((k : ℕ) (l : List Stored) → IsNewestFirst l (order k l))
    → DistinctDates (keep (matches status) rows)
    → ((k : ℕ)
        → k ≤ m
        → parse_offset_page_request (q k) ≡ record { offset = pos (k * n); limit = pos n })
    → ((k : ℕ) → k ≤ m → query_string (q k) (codes "status") ≡ status)
    → total_of (list (order 0) true true (q 0) rows) ≤ m * n
    → IsNewestFirst
        (keep (matches status) rows)
        (gather (λ k. list (order k) true true (q k) rows) m)
list-Pages order status m n rows q ordered differ paged filters enough =
    let found = keep (matches status) rows in
    let total : total_of (list (order 0) true true (q 0) rows) ≡ length found =
      ap total_of
        (list-paged order status m n rows q ordered differ paged filters 0 (omega arith)) in
    subst (IsNewestFirst found)
      (sym (
        gather-take order status m n rows q ordered differ paged filters m (omega arith)
        ∙ take_whole (m * n) (order 0 found) (
            omega (
              arith,
              enough,
              total,
              IsNewestFirst-length found (order 0 found) (ordered 0 found),
            ))))
      (ordered 0 found)
