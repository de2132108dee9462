-- ===== src/Engine/EventBus/Sound.antt =====
-- What is sound in a bus, and how sending and receiving keep it.
use react_go_workflow.Prelude.{
  ℕ, ◌≤◌, ◌<◌, ◌≡◌, refl, ap, ◌∙◌, inl, inr, true, false, Option, some, List, [], ◌∷◌, ◌++◌, length,
  length-append, ltb, ◌==◌, ==_iff, update, In, arith, Bool-cases, List-cases, subst,
}
use react_go_workflow.Engine.Types.{Uuid, Event}
use react_go_workflow.Engine.Trace.{Distinct}
use react_go_workflow.Engine.EventBus.{
  Channel, capacity, EventBus, new_event_bus, send, send_all, receive,
}

pub record IsSound (b : EventBus) : Type 0 where
  -- A subscribed channel is open, and was made by the bus.
  pub is_open : (id : Uuid) (ch : ℕ) → In ch (b.subscribers id) → (b.channels ch).closed ≡ false
  pub made : (id : Uuid) (ch : ℕ) → In ch (b.subscribers id) → ch < b.next
  -- It is subscribed for one execution, and once.
  pub one :
      (id id' : Uuid) (ch : ℕ) → In ch (b.subscribers id) → In ch (b.subscribers id') → id ≡ id'
  pub once : (id : Uuid) → Distinct (b.subscribers id)
  -- No buffer is fuller than its capacity.
  pub bounded : (ch : ℕ) → length (b.channels ch).buffer ≤ capacity

pub new_event_bus-IsSound : IsSound new_event_bus
unfolding new_event_bus
new_event_bus-IsSound = record {
  is_open = λ id ch i. absurd i;
  made = λ id ch i. absurd i;
  one = λ id id' ch i. absurd i;
  once = λ id. tt;
  bounded = λ ch. omega arith;
}

-- A bus with fewer subscriptions, all of them still open.
pub shrink-IsSound :
    (b : EventBus) (subs : Uuid → List ℕ) (chans : ℕ → Channel)
    → IsSound b
    → ((id : Uuid) (ch : ℕ) → In ch (subs id) → In ch (b.subscribers id))
    → ((id : Uuid) → Distinct (subs id))
    → ((id : Uuid) (ch : ℕ) → In ch (subs id) → (chans ch).closed ≡ false)
    → ((ch : ℕ) → length (chans ch).buffer ≤ capacity)
    → IsSound (record b { subscribers = subs; channels = chans })
shrink-IsSound b subs chans h sub once is_open bounded = record {
  is_open = is_open;
  made = λ id ch i. h.made id ch (sub id ch i);
  one = λ id id' ch i j. h.one id id' ch (sub id ch i) (sub id' ch j);
  once = once;
  bounded = bounded;
}

module _ (chans : ℕ → Channel) (ch : ℕ) (x : Channel) where
  pub bounded-update :
      ((c : ℕ) → length (chans c).buffer ≤ capacity)
      → length x.buffer ≤ capacity
      → (c : ℕ) → length (update chans ch x c).buffer ≤ capacity
  bounded-update h new c = elim (Bool-cases (ch == c)) [
    | inl same ↦ rw (same, update) new
    | inr other ↦ rw (other, update) (h c)
  ]

  closed-update :
      x.closed ≡ (chans ch).closed → (c : ℕ) → (update chans ch x c).closed ≡ (chans c).closed
  closed-update same_flag c = elim (Bool-cases (ch == c)) [
    | inl same ↦ rw (same, update) (same_flag ∙ ap (λ i. (chans i).closed) ((==_iff ch c).0 same))
    | inr other ↦ rw (other, update) refl
  ]

-- A channel gets another buffer.
rebuffer-IsSound :
    (b : EventBus) (ch : ℕ) (l : List Event)
    → IsSound b
    → length l ≤ capacity
    → IsSound (record b { channels = update b.channels ch (record (b.channels ch) { buffer = l }) })
rebuffer-IsSound b ch l h short =
    shrink-IsSound b b.subscribers _ h (λ id c i. i) h.once
      (λ id c i.
        closed-update b.channels ch (record (b.channels ch) { buffer = l }) refl c
        ∙ h.is_open id c i)
      (bounded-update b.channels ch (record (b.channels ch) { buffer = l }) h.bounded short)

pub receive-IsSound : (ch : ℕ) (b : EventBus) → IsSound b → IsSound (receive ch b)
unfolding receive
receive-IsSound ch b h = elim (List-cases (b.channels ch).buffer) [
  | inl none' ↦ rw (none', receive) h
  | inr (e, rest, some') ↦
      rw (some', receive)
        (rebuffer-IsSound b ch rest h
          (omega (arith, subst (λ l. length l ≤ capacity) some' (h.bounded ch))))
]

-- What a method leaves: a sound bus.
abbrev pub Performs : Option EventBus → Type 0
Performs o = (b : EventBus) × (o ≡ some b) × IsSound b

-- A bus on which the same channels are open.
abbrev SameOpen : EventBus → EventBus → Type 0
SameOpen b t = (c : ℕ) → (t.channels c).closed ≡ (b.channels c).closed

module _ (e : Event) (ch : ℕ) (b : EventBus) (is_open : (b.channels ch).closed ≡ false) where
  abbrev filled : EventBus
  filled = record b {
    channels =
        update b.channels ch (record (b.channels ch) { buffer = (b.channels ch).buffer ++ e ∷ [] });
  }

  send_room : ltb (length (b.channels ch).buffer) capacity ≡ true → send e ch b ≡ some filled
  unfolding send
  send_room room = rw (is_open, room, send) refl

  send_full : ltb (length (b.channels ch).buffer) capacity ≡ false → send e ch b ≡ some b
  unfolding send
  send_full full = rw (is_open, full, send) refl

  -- An event is appended, or dropped where the buffer is full.
  send-Performs : IsSound b → (t : EventBus) × (send e ch b ≡ some t) × IsSound t × SameOpen b t
  send-Performs h = elim (Bool-cases (ltb (length (b.channels ch).buffer) capacity)) [
    | inl room ↦
        let l = (b.channels ch).buffer ++ e ∷ [] in
        (
          filled,
          send_room room,
          rebuffer-IsSound b ch l h (ground (arith, length-append (b.channels ch).buffer (e ∷ []))),
          closed-update b.channels ch (record (b.channels ch) { buffer = l }) refl,
        )
    | inr full ↦ (b, send_full full, h, λ c. refl)
  ]

pub send_all-Performs :
    (e : Event) (chs : List ℕ) (b : EventBus)
    → IsSound b
    → ((ch : ℕ) → In ch chs → (b.channels ch).closed ≡ false)
    → Performs (send_all e chs b)
unfolding send_all
send_all-Performs e [] b h is_open = (b, refl, h)
send_all-Performs e (ch ∷ chs) b h is_open =
    let (u, sent, sound, same) = send-Performs e ch b (is_open ch (inl refl)) h in
    let (t, rest, end) = send_all-Performs e chs u sound (λ c i. same c ∙ is_open c (inr i)) in
    (t, rw (sent, send_all) rest, end)
