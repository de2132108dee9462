-- ===== src/Engine/EventBus/Closing.antt =====
-- What closing channels leaves, and the removal of a subscription from a list.
use react_go_workflow.Prelude.{
  ℕ, ◌≡◌, refl, sym, ap, ◌∙◌, inl, inr, true, false, some, List, [], ◌∷◌, ◌==◌, ==_iff, update, In,
  arith, Bool-cases, subst,
}
use react_go_workflow.Engine.Trace.{Distinct}
use react_go_workflow.Engine.EventBus.{Channel, EventBus, close, contains, remove_first, close_all}

pub close_open :
    (ch : ℕ) (b : EventBus)
    → (b.channels ch).closed ≡ false
    → close ch b
      ≡ some
          (record b { channels = update b.channels ch (record (b.channels ch) { closed = true }) })
unfolding close
close_open ch b is_open = rw (is_open, close) refl

-- What closing a channel leaves of the channels.
module _ (ch : ℕ) (b : EventBus) where
  abbrev after_close : ℕ → Channel
  after_close = update b.channels ch (record (b.channels ch) { closed = true })

  pub elsewhere : (c : ℕ) → (ch ≡ c → ⊥) → (after_close c).closed ≡ (b.channels c).closed
  elsewhere c n = elim (Bool-cases (ch == c)) [
    | inl same ↦ absurd (n ((==_iff ch c).0 same))
    | inr other ↦ rw (other, update) refl
  ]

  pub kept : (c : ℕ) → (after_close c).buffer ≡ (b.channels c).buffer
  kept c = elim (Bool-cases (ch == c)) [
    | inl same ↦ rw (same, update) (ap (λ i. (b.channels i).buffer) ((==_iff ch c).0 same))
    | inr other ↦ rw (other, update) refl
  ]

-- Closing a list of open channels that stand once: the others stay as they are, and so do the buffers.
pub close_all-Closes :
    (chs : List ℕ) (b : EventBus)
    → Distinct chs
    → ((ch : ℕ) → In ch chs → (b.channels ch).closed ≡ false)
    → (chans : ℕ → Channel) × (close_all chs b ≡ some (record b { channels = chans }))
      × ((c : ℕ) → (In c chs → ⊥) → (chans c).closed ≡ (b.channels c).closed)
      × ((c : ℕ) → (chans c).buffer ≡ (b.channels c).buffer)
unfolding close_all
close_all-Closes [] b d is_open = (b.channels, refl, (λ c n. refl), (λ c. refl))
close_all-Closes (ch ∷ chs) b d is_open =
    let u = record b {
      channels = update b.channels ch (record (b.channels ch) { closed = true });
    } in
    let (chans, rest, same, full) =
      close_all-Closes chs u d.1 (λ c i.
        elsewhere ch b c (λ e. d.0 (subst (λ x. In x chs) (sym e) i)) ∙ is_open c (inr i)) in
    (
      chans,
      rw (close_open ch b (is_open ch (inl refl)), close_all) rest,
      λ c n. same c (λ i. n (inr i)) ∙ elsewhere ch b c (λ e. n (inl e)),
      λ c. full c ∙ kept ch b c,
    )

pub In-remove_first : (ch c : ℕ) (l : List ℕ) → In c (remove_first ch l) → In c l
unfolding remove_first
In-remove_first ch c [] i = i
In-remove_first ch c (s ∷ l) i = elim (Bool-cases (s == ch)) [
  | inl same ↦ inr (rw (same, remove_first) at i)
  | inr other ↦ elim (rw (other, remove_first) at i) [
    | inl e ↦ inl e
    | inr j ↦ inr (In-remove_first ch c l j)
  ]
]

pub remove_first-Distinct : (ch : ℕ) (l : List ℕ) → Distinct l → Distinct (remove_first ch l)
unfolding remove_first
remove_first-Distinct ch [] d = tt
remove_first-Distinct ch (s ∷ l) d = elim (Bool-cases (s == ch)) [
  | inl same ↦ rw (same, remove_first) d.1
  | inr other ↦
      rw (other, remove_first)
        ((λ i. d.0 (In-remove_first ch s l i)), remove_first-Distinct ch l d.1)
]

pub remove_first-gone : (ch : ℕ) (l : List ℕ) → Distinct l → In ch (remove_first ch l) → ⊥
unfolding remove_first
remove_first-gone ch [] d i = i
remove_first-gone ch (s ∷ l) d i = elim (Bool-cases (s == ch)) [
  | inl same ↦ d.0 (subst (λ x. In x l) (sym ((==_iff s ch).0 same)) (rw (same, remove_first) at i))
  | inr other ↦ elim (rw (other, remove_first) at i) [
    | inl e ↦ ground (arith, e, other)
    | inr j ↦ remove_first-gone ch l d.1 j
  ]
]

pub contains-In : (ch : ℕ) (l : List ℕ) → contains ch l ≡ true → In ch l
unfolding contains
contains-In ch [] h = absurd cc
contains-In ch (s ∷ l) h = elim (Bool-cases (s == ch)) [
  | inl same ↦ inl ((==_iff s ch).0 same)
  | inr other ↦ inr (contains-In ch l (rw (other, contains) at h))
]
