-- ===== src/Notifications/Inbox/Witnesses.antt =====
-- The theorems on the table of notifications at three of them.
use mathlib.Core.List.Permᴰ
use mathlib.Core.List.{Permᴰ}
use react_go_workflow.Prelude.{
  leb, if◌then◌else◌, Bool-cases, inl, inr, All, ℕ, zero, suc, ◌*◌, ◌≤◌, ◌≡◌, ◌↔◌, refl, pos, Bool,
  true, false, some, List, [], ◌∷◌, foldl, keep, codes, arith,
}
use react_go_workflow.Engine.Types.{Uuid}
use react_go_workflow.Shared.Query.{Query, query_string}
use react_go_workflow.Shared.Pagination.{parse_offset_page_request}
use react_go_workflow.Notifications.{Notification, error}
use react_go_workflow.Notifications.Inbox.{
  Stored, matches, list, unread_count, Change, storing, marking, marking_all, change_all,
}
use react_go_workflow.Notifications.Inbox.Newest.{Descending, IsNewestFirst}
use react_go_workflow.Notifications.Inbox.Pages.{gather, list-Pages}
use react_go_workflow.Notifications.Inbox.Unread.{unread, told, change_all-Unread}

abbrev failed : Notification
failed = record {
  workflow_id = 1;
  workflow_execution_id = 2;
  title = codes "w failed";
  message = codes "e";
  severity = error;
}

abbrev stored : Uuid → Bool → Stored
stored id is_unread = record {
  id = id;
  notification = failed;
  is_unread = is_unread;
  date_created = id;
}

abbrev three : List Stored
three = stored 3 true ∷ stored 2 false ∷ stored 1 true ∷ []

-- Pages of one unread notification.
abbrev page_query : ℕ → Query
page_query zero =
    (codes "status", codes "unread") ∷ (codes "limit", codes "1") ∷ (codes "offset", codes "0") ∷ []
page_query (suc zero) =
    (codes "status", codes "unread") ∷ (codes "limit", codes "1") ∷ (codes "offset", codes "1") ∷ []
page_query (suc (suc k)) =
    (codes "status", codes "unread") ∷ (codes "limit", codes "1") ∷ (codes "offset", codes "2") ∷ []

page_query-paged :
    (k : ℕ)
    → k ≤ 2
    → parse_offset_page_request (page_query k) ≡ record { offset = pos (k * 1); limit = pos 1 }
unfolding parse_offset_page_request
page_query-paged zero h = refl
page_query-paged (suc zero) h = refl
page_query-paged (suc (suc zero)) h = refl
page_query-paged (suc (suc (suc k))) h = absurd (omega (arith, h))

page_query-unread :
    (k : ℕ) → k ≤ 2 → query_string (page_query k) (codes "status") ≡ some (codes "unread")
unfolding query_string
page_query-unread zero h = refl
page_query-unread (suc zero) h = refl
page_query-unread (suc (suc zero)) h = refl
page_query-unread (suc (suc (suc k))) h = absurd (omega (arith, h))

-- A row before the first one that is not newer.
abbrev put : Stored → List Stored → List Stored
put x [] = x ∷ []
put x (y ∷ l) =
    let rest = put x l in if leb y.date_created x.date_created then x ∷ y ∷ l else y ∷ rest

abbrev sort : List Stored → List Stored
sort [] = []
sort (x ∷ l) = put x (sort l)

put-Permᴰ : (x : Stored) (l : List Stored) → Permᴰ (x ∷ l) (put x l)
put-Permᴰ x [] = Permᴰ.refl (x ∷ [])
put-Permᴰ x (y ∷ l) = elim (Bool-cases (leb y.date_created x.date_created)) [
  | inl first ↦ rw first (Permᴰ.refl (x ∷ y ∷ l))
  | inr later ↦ rw later (Permᴰ.trans (Permᴰ.swap refl refl) (Permᴰ.cons refl (put-Permᴰ x l)))
]

sort-Permᴰ : (l : List Stored) → Permᴰ l (sort l)
sort-Permᴰ [] = Permᴰ.nil
sort-Permᴰ (x ∷ l) = Permᴰ.trans (Permᴰ.cons refl (sort-Permᴰ l)) (put-Permᴰ x (sort l))

put-AtMost :
    (t : ℕ) (x : Stored) (l : List Stored)
    → x.date_created ≤ t
    → All (λ y. y.date_created ≤ t) l
    → All (λ y. y.date_created ≤ t) (put x l)
put-AtMost t x [] h a = (h, tt)
put-AtMost t x (y ∷ l) h a = elim (Bool-cases (leb y.date_created x.date_created)) [
  | inl first ↦ rw first (h, a)
  | inr later ↦ rw later (a.0, put-AtMost t x l h a.1)
]

weaker :
    (s t : ℕ) (l : List Stored)
    → s ≤ t
    → All (λ y. y.date_created ≤ s) l
    → All (λ y. y.date_created ≤ t) l
weaker s t [] h a = tt
weaker s t (y ∷ l) h a = (omega (arith, h, a.0), weaker s t l h a.1)

put-Descending : (x : Stored) (l : List Stored) → Descending l → Descending (put x l)
put-Descending x [] d = (tt, tt)
put-Descending x (y ∷ l) d = elim (Bool-cases (leb y.date_created x.date_created)) [
  | inl first ↦
      let below : y.date_created ≤ x.date_created = ground (arith, first) in
      rw first ((below, weaker y.date_created x.date_created l below d.0), d)
  | inr later ↦
      rw later (put-AtMost y.date_created x l (ground (arith, later)) d.0, put-Descending x l d.1)
]

sort-Descending : (l : List Stored) → Descending (sort l)
sort-Descending [] = tt
sort-Descending (x ∷ l) = put-Descending x (sort l) (sort-Descending l)

list-Pages_example :
    IsNewestFirst
      (keep (matches (some (codes "unread"))) three)
      (gather (λ k. list sort true true (page_query k) three) 2)
list-Pages_example =
    list-Pages (λ k. sort) (some (codes "unread")) 2 1 three page_query
      (λ k l. record { same = sort-Permᴰ l; descends = sort-Descending l })
      (unfold matches in (((λ e. cc), tt), (tt, tt))) page_query-paged page_query-unread
      (unfold list in omega arith)

abbrev changes : List Change
changes = storing 4 4 failed ∷ marking_all true ∷ storing 5 5 failed ∷ marking true (some 3) ∷ []

change_all-Unread_example :
    ((id : Uuid) → unread id (change_all changes three) ≡ foldl (told id) (unread id three) changes)
    × ((unread_count true (change_all changes three) ≡ some 0)
        ↔ ((id : Uuid) → foldl (told id) (unread id three) changes ≡ false))
change_all-Unread_example = change_all-Unread changes three

one_is_left : unread_count true (change_all changes three) ≡ some 1
unfolding unread_count change_all
one_is_left = refl
