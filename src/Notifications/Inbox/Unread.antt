-- ===== src/Notifications/Inbox/Unread.antt =====
-- internal/notification/handler.go: which notifications are unread.
use react_go_workflow.Prelude.{
  ◌≡◌, refl, sym, ◌∙◌, ap, inl, inr, Bool, true, false, ◌&&◌, ◌||◌, none, some, List, [], ◌∷◌,
  foldl, ◌==◌, ◌↔◌, keep, length, arith, ==_iff, Bool-cases, if◌then◌else◌,
}
use mathlib.Core.Option.{some_inj}
use react_go_workflow.Engine.Types.{Uuid}
use react_go_workflow.Notifications.Inbox.{
  Stored, has_row, set_read, set_all_read, mark_read, mark_all_read, unread_count, Change, storing,
  marking, marking_all, change, change_all,
}

-- Some unread row has the id.
unfoldable pub unread : Uuid → List Stored → Bool
unread id [] = false
unread id (n ∷ rows) = (n.id == id && n.is_unread) || unread id rows

unread-set_read :
    (id j : Uuid) (rows : List Stored)
    → unread id (set_read j rows) ≡ (if j == id then false else unread id rows)
unfolding unread set_read
unread-set_read id j [] = ground arith
unread-set_read id j (n ∷ rows) = ground (arith, unread-set_read id j rows)

unread-set_all_read : (id : Uuid) (rows : List Stored) → unread id (set_all_read rows) ≡ false
unfolding unread set_all_read
unread-set_all_read id [] = refl
unread-set_all_read id (n ∷ rows) = ground (arith, unread-set_all_read id rows)

unread-no_row : (id : Uuid) (rows : List Stored) → has_row id rows ≡ false → unread id rows ≡ false
unfolding unread has_row
unread-no_row id [] h = refl
unread-no_row id (n ∷ rows) h = ground (arith, h, unread-no_row id rows)

-- What a change says about one notification: it becomes unread when it is stored, and read when the
-- database takes a mark for it or for all.
abbrev pub told : Uuid → Bool → Change → Bool
told id b (storing j date n) = j == id || b
told id b (marking can_save none) = b
told id b (marking can_save (some j)) = if can_save && j == id then false else b
told id b (marking_all can_save) = if can_save then false else b

unread-change :
    (id : Uuid) (c : Change) (rows : List Stored)
    → unread id (change c rows) ≡ told id (unread id rows) c
unfolding unread change mark_read mark_all_read
unread-change id (storing j date n) rows = ground arith
unread-change id (marking can_save none) rows = refl
unread-change id (marking false (some j)) rows = refl
unread-change id (marking true (some j)) rows = elim (Bool-cases (has_row j rows)) [
  | inl there ↦ rw (there, change, mark_read) (unread-set_read id j rows)
  | inr not_there ↦
      rw (not_there, change, mark_read)
        (elim (Bool-cases (j == id)) [
          | inl same ↦ rw same (unread-no_row id rows (rw (← (==_iff j id).0 same) not_there))
          | inr apart ↦ rw apart refl
        ])
]
unread-change id (marking_all true) rows = unread-set_all_read id rows
unread-change id (marking_all false) rows = refl

unread-change_all :
    (id : Uuid) (l : List Change) (rows : List Stored)
    → unread id (change_all l rows) ≡ foldl (told id) (unread id rows) l
unfolding change_all
unread-change_all id [] rows = refl
unread-change_all id (c ∷ l) rows =
    unread-change_all id l (change c rows) ∙ ap (λ b. foldl (told id) b l) (unread-change id c rows)

none_counted :
    (rows : List Stored)
    → length (keep (λ n. n.is_unread) rows) ≡ 0
    → (id : Uuid) → unread id rows ≡ false
unfolding unread
none_counted [] h id = refl
none_counted (n ∷ rows) h id =
    let later : length (keep (λ m. m.is_unread) rows) ≡ 0 → unread id rows ≡ false =
      λ k. none_counted rows k id in
    ground (arith, h, later)

none_unread :
    (rows : List Stored)
    → ((id : Uuid) → unread id rows ≡ false)
    → length (keep (λ n. n.is_unread) rows) ≡ 0
unfolding unread
none_unread [] h = refl
none_unread (n ∷ rows) h =
    let later = none_unread rows (λ id. ground (arith, h id)) in ground (arith, h n.id, later)

-- After any changes of the table a notification is unread exactly if what they say of it, one after the
-- other, leaves it so; and UnreadCount, where its query works, answers 0 exactly if they leave no
-- notification unread.
pub change_all-Unread :
    (l : List Change) (rows : List Stored)
    → ((id : Uuid) → unread id (change_all l rows) ≡ foldl (told id) (unread id rows) l)
      × ((unread_count true (change_all l rows) ≡ some 0)
          ↔ ((id : Uuid) → foldl (told id) (unread id rows) l ≡ false))
unfolding unread_count
change_all-Unread l rows = (
  (λ id. unread-change_all id l rows),
  (
    (λ h id.
        sym (unread-change_all id l rows) ∙ none_counted (change_all l rows) (some_inj.0 h) id),
    (λ h. ap some (none_unread (change_all l rows) (λ id. unread-change_all id l rows ∙ h id))),
  ),
)
