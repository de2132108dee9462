-- ===== src/Engine/EventBus/Subscriptions.antt =====
-- Subscribing, unsubscribing and cleaning up keep a bus sound.
use react_go_workflow.Prelude.{
  In-append, ℕ, ◌≡◌, refl, sym, ◌∙◌, inl, inr, ◌⊎◌, true, false, List, [], ◌∷◌, ◌++◌, ◌==◌, ==_iff,
  update, In, arith, Bool-cases, subst,
}
use react_go_workflow.Engine.Types.{Uuid}
use react_go_workflow.Engine.Trace.{Distinct-append}
use react_go_workflow.Engine.EventBus.{
  EventBus, subscribe, contains, remove_first, unsubscribe, cleanup,
}
use react_go_workflow.Engine.EventBus.Sound.{IsSound, Performs, bounded-update, shrink-IsSound}
use react_go_workflow.Engine.EventBus.Closing.{
  In-remove_first, close_all-Closes, close_open, contains-In, elsewhere, kept,
  remove_first-Distinct, remove_first-gone,
}

pub subscribe-IsSound : (id : Uuid) (b : EventBus) → IsSound b → IsSound (subscribe id b)
unfolding subscribe
subscribe-IsSound id b h = record {
  is_open = λ i ch j. elim (who i ch j) [
    | inl old ↦ new_open ch (λ other. h.is_open i ch old)
    | inr (same, new) ↦ new_open ch (λ other. ground (arith, new, other))
  ];
  made = λ i ch j. elim (who i ch j) [
    | inl old ↦ omega (arith, h.made i ch old)
    | inr (same, new) ↦ omega arith
  ];
  one = λ i i' ch j j'. elim (who i ch j) [
    | inl old ↦ elim (who i' ch j') [
      | inl old' ↦ h.one i i' ch old old'
      | inr (same, new) ↦ absurd (fresh i ch old new)
    ]
    | inr (same, new) ↦ elim (who i' ch j') [
      | inl old' ↦ absurd (fresh i' ch old' new)
      | inr (same', new') ↦ sym same ∙ same'
    ]
  ];
  once = λ i. elim (Bool-cases (id == i)) [
    | inl same ↦
        rw (same, update)
          (Distinct-append (b.subscribers id) (b.next ∷ []) (h.once id) ((λ j. absurd j), tt)
            (λ c j k. elim k [ inl new ↦ fresh id c j new | inr none' ↦ absurd none' ]))
    | inr other ↦ rw (other, update) (h.once i)
  ];
  bounded =
      bounded-update b.channels b.next (record { buffer = []; closed = false }) h.bounded
        (omega arith);
}
  where
    -- Who subscribes a channel: it did so before, or it is the new one.
    who :
        (i : Uuid) (ch : ℕ)
        → In ch (update b.subscribers id (b.subscribers id ++ b.next ∷ []) i)
        → In ch (b.subscribers i) ⊎ ((id ≡ i) × (b.next ≡ ch))
    who i ch j = elim (Bool-cases (id == i)) [
      | inr other ↦ inl (rw (other, update) at j)
      | inl same ↦ elim (In-append ch (b.subscribers id) (b.next ∷ []) (rw (same, update) at j)) [
        | inl old ↦ inl (subst (λ k. In ch (b.subscribers k)) ((==_iff id i).0 same) old)
        | inr (inl new) ↦ inr ((==_iff id i).0 same, new)
        | inr (inr no') ↦ absurd no'
      ]
    ]

    fresh : (i : Uuid) (ch : ℕ) → In ch (b.subscribers i) → b.next ≡ ch → ⊥
    fresh i ch old new = omega (arith, h.made i ch old)

    new_open :
        (ch : ℕ)
        → ((b.next == ch) ≡ false → (b.channels ch).closed ≡ false)
        → (update b.channels b.next (record { buffer = []; closed = false }) ch).closed ≡ false
    new_open ch old = elim (Bool-cases (b.next == ch)) [
      | inl same ↦ rw (same, update) refl
      | inr other ↦ rw (other, update) (old other)
    ]

pub cleanup-Performs : (id : Uuid) (b : EventBus) → IsSound b → Performs (cleanup id b)
unfolding cleanup
cleanup-Performs id b h =
    let (chans, closed, same, full) =
      close_all-Closes (b.subscribers id) b (h.once id) (h.is_open id) in
    (
      record b { subscribers = update b.subscribers id []; channels = chans },
      rw (closed, cleanup) refl,
      shrink-IsSound b (update b.subscribers id []) chans h (λ i c j. (left i c j).1)
          (λ i. elim (Bool-cases (id == i)) [
            | inl hit ↦ rw (hit, update) tt
            | inr other ↦ rw (other, update) (h.once i)
          ])
          (λ i c j.
            let (other, old) = left i c j in
            same c (λ k. other (h.one id i c k old)) ∙ h.is_open i c old)
          (λ c. rw (full c) (h.bounded c)),
    )
  where
    left :
        (i : Uuid) (c : ℕ)
        → In c (update b.subscribers id [] i)
        → (id ≡ i → ⊥) × In c (b.subscribers i)
    left i c j = elim (Bool-cases (id == i)) [
      | inl hit ↦ absurd (rw (hit, update) at j)
      | inr other ↦ ((λ e. ground (arith, e, other)), (rw (other, update) at j))
    ]

pub unsubscribe-Performs :
    (id : Uuid) (ch : ℕ) (b : EventBus) → IsSound b → Performs (unsubscribe id ch b)
unfolding unsubscribe
unsubscribe-Performs id ch b h = elim (Bool-cases (contains ch (b.subscribers id))) [
  | inr absent ↦ (b, rw (absent, unsubscribe) refl, h)
  | inl present ↦ (
    _,
    rw (present, unsubscribe)
        (close_open ch (record b { subscribers = subs })
          (h.is_open id ch (contains-In ch _ present))),
    sound (contains-In ch _ present),
  )
]
  where
    subs : Uuid → List ℕ
    subs = update b.subscribers id (remove_first ch (b.subscribers id))

    left : (i : Uuid) (c : ℕ) → In c (subs i) → In c (b.subscribers i)
    left i c j = elim (Bool-cases (id == i)) [
      | inl hit ↦
          subst (λ k. In c (b.subscribers k)) ((==_iff id i).0 hit)
            (In-remove_first ch c (b.subscribers id) (rw (hit, update) at j))
      | inr other ↦ (rw (other, update) at j)
    ]

    sound :
        In ch (b.subscribers id)
        → IsSound (record b {
          subscribers = subs;
          channels = update b.channels ch (record (b.channels ch) { closed = true });
        })
    sound member =
        shrink-IsSound b subs _ h left
          (λ i. elim (Bool-cases (id == i)) [
            | inl hit ↦ rw (hit, update) (remove_first-Distinct ch (b.subscribers id) (h.once id))
            | inr other ↦ rw (other, update) (h.once i)
          ])
          (λ i c j.
            elsewhere ch b c (λ same. away i (subst (λ x. In x (subs i)) (sym same) j))
            ∙ h.is_open i c (left i c j))
          (λ c. rw (kept ch b c) (h.bounded c))
      where
        away : (i : Uuid) → In ch (subs i) → ⊥
        away i j = elim (Bool-cases (id == i)) [
          | inl hit ↦ remove_first-gone ch (b.subscribers id) (h.once id) (rw (hit, update) at j)
          | inr other ↦ ground (arith, h.one id i ch member (left i ch j), other)
        ]
