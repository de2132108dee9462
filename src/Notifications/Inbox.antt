-- ===== src/Notifications/Inbox.antt =====
-- internal/notification/handler.go: List, UnreadCount, MarkRead and MarkAllRead, on the table of notifications
-- that Dispatch stores in.
pub mod Newest
pub mod Pages
pub mod Unread
mod Witnesses
use react_go_workflow.Prelude.{
  ℕ, ℤ, pos, negsuc, Bool, true, false, not, ◌&&◌, ◌||◌, Option, none, some, List, [], ◌∷◌, ◌==◌,
  keep, take, drop, length, Text, codes, text_eq, if◌then◌else◌,
}
use react_go_workflow.Engine.Types.{Uuid}
use react_go_workflow.Shared.Query.{Query, query_string}
use react_go_workflow.Shared.Pagination.{OffsetPageRequest, parse_offset_page_request}
use react_go_workflow.Notifications.{Notification}

-- A row of notifications; the date is a number of time units.
pub record Stored : Type 0 where
  pub id : Uuid
  pub notification : Notification
  pub is_unread : Bool
  pub date_created : ℕ

-- The filter on the status; any other text than these two filters nothing.
abbrev pub matches : Option Text → Stored → Bool
unfolding text_eq
matches none n = true
matches (some s) n =
    if text_eq s (codes "unread")
    then n.is_unread
    else if text_eq s (codes "read")
    then not n.is_unread
    else true

pub data ListAnswer : Type 0 where
  internal : ListAnswer
  listed : List Stored → (total : ℕ) → OffsetPageRequest → ListAnswer

-- Offset and Limit; a page request has no negative numbers.
abbrev size : ℤ → ℕ
size (pos n) = n
size (negsuc n) = 0

abbrev pub page_of : OffsetPageRequest → List Stored → List Stored
page_of p rows = take (size p.limit) (drop (size p.offset) rows)

-- List, where `newest_first` is the order in which the database gives the rows of this query, and the two
-- queries answer or fail.
unfoldable pub list :
    (newest_first : List Stored → List Stored)
    → (can_count can_fetch : Bool) → Query
    → List Stored
    → ListAnswer
unfolding query_string parse_offset_page_request text_eq
list newest_first can_count can_fetch q rows =
    let page = parse_offset_page_request q in
    let found = keep (matches (query_string q (codes "status"))) rows in
    if not can_count
    then internal
    else if not can_fetch
    then internal
    else listed (page_of page (newest_first found)) (length found) page

-- UnreadCount; none is the answer of a failed query.
unfoldable pub unread_count : (can_count : Bool) → List Stored → Option ℕ
unread_count can_count rows =
    if can_count then some (length (keep (λ n. n.is_unread) rows)) else none

unfoldable pub has_row : Uuid → List Stored → Bool
has_row id [] = false
has_row id (n ∷ rows) = n.id == id || has_row id rows

unfoldable pub set_read : Uuid → List Stored → List Stored
set_read id [] = []
set_read id (n ∷ rows) =
    (if n.id == id then record n { is_unread = false } else n) ∷ set_read id rows

unfoldable pub set_all_read : List Stored → List Stored
set_all_read [] = []
set_all_read (n ∷ rows) = record n { is_unread = false } ∷ set_all_read rows

pub data MarkAnswer : Type 0 where
  invalid_id not_found internal_error ok no_content : MarkAnswer

-- MarkRead, where `id` is what uuid.Parse reads.
unfoldable pub mark_read :
    (can_save : Bool) → (id : Option Uuid) → List Stored → MarkAnswer × List Stored
unfolding has_row set_read
mark_read can_save none rows = (invalid_id, rows)
mark_read can_save (some id) rows =
    if not can_save
    then (internal_error, rows)
    else if has_row id rows
    then (ok, set_read id rows)
    else (not_found, rows)

-- MarkAllRead
unfoldable pub mark_all_read : (can_save : Bool) → List Stored → MarkAnswer × List Stored
unfolding set_all_read
mark_all_read can_save rows =
    if can_save then (no_content, set_all_read rows) else (internal_error, rows)

-- What changes the table: a notification that Dispatch stores, with the id and the date of its row, and the
-- requests.
pub data Change : Type 0 where
  storing : Uuid → (date_created : ℕ) → Notification → Change
  marking : (can_save : Bool) → (id : Option Uuid) → Change
  marking_all : (can_save : Bool) → Change

unfoldable pub change : Change → List Stored → List Stored
unfolding mark_read mark_all_read
change (storing id date n) rows =
    record { id = id; notification = n; is_unread = true; date_created = date } ∷ rows
change (marking can_save id) rows = (mark_read can_save id rows).1
change (marking_all can_save) rows = (mark_all_read can_save rows).1

unfoldable pub change_all : List Change → List Stored → List Stored
unfolding change
change_all [] rows = rows
change_all (c ∷ l) rows = change_all l (change c rows)
