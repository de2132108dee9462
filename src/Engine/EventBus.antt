-- ===== src/Engine/EventBus.antt =====
-- internal/engine/events.go, the event bus: its channels, and what its methods and the readers of the
-- channels do. Each method holds the lock, so they follow one another. `none` is a panic.
pub mod Sound
pub mod Closing
pub mod Subscriptions
pub mod Laws
use react_go_workflow.Prelude.{
  ℕ, suc, Bool, true, false, Option, none, some, List, [], ◌∷◌, ◌++◌, length, ltb, ◌==◌,
  if◌then◌else◌, update,
}
use react_go_workflow.Engine.Types.{Uuid, Event}

-- A channel with a buffer.
pub record Channel : Type 0 where
  pub buffer : List Event
  pub closed : Bool

-- make(chan Event, 64)
abbrev pub capacity : ℕ
capacity = 64

-- `channels` is the heap of channels, with `next` the first address that is free. A missing key of
-- `subscribers` reads as the empty list.
pub record EventBus : Type 0 where
  pub subscribers : Uuid → List ℕ
  pub channels : ℕ → Channel
  pub next : ℕ

unfoldable pub new_event_bus : EventBus
new_event_bus = record {
  subscribers = λ _. [];
  channels = λ _. record { buffer = []; closed = false };
  next = 0;
}

-- close(ch), which panics on a closed channel.
unfoldable pub close : ℕ → EventBus → Option EventBus
close ch b =
    if (b.channels ch).closed
    then none
    else some
        (record b { channels = update b.channels ch (record (b.channels ch) { closed = true }) })

-- select { case ch <- event: default: }, which panics on a closed channel.
unfoldable pub send : Event → ℕ → EventBus → Option EventBus
send e ch b =
    let c = b.channels ch in
    if c.closed
    then none
    else if ltb (length c.buffer) capacity
    then some
        (record b { channels = update b.channels ch (record c { buffer = c.buffer ++ e ∷ [] }) })
    else some b

-- The channel that Subscribe returns is the one at the old `next`.
unfoldable pub subscribe : Uuid → EventBus → EventBus
subscribe id b = record b {
  subscribers = update b.subscribers id (b.subscribers id ++ b.next ∷ []);
  channels = update b.channels b.next (record { buffer = []; closed = false });
  next = suc b.next;
}

unfoldable pub contains : ℕ → List ℕ → Bool
contains ch [] = false
contains ch (s ∷ subs) = if s == ch then true else contains ch subs

-- append(subs[:i], subs[i+1:]...) at the first place of the channel.
unfoldable pub remove_first : ℕ → List ℕ → List ℕ
remove_first ch [] = []
remove_first ch (s ∷ subs) = if s == ch then subs else s ∷ remove_first ch subs

unfoldable pub unsubscribe : Uuid → ℕ → EventBus → Option EventBus
unfolding close contains remove_first
unsubscribe id ch b =
    if contains ch (b.subscribers id)
    then close ch
        (record b { subscribers = update b.subscribers id (remove_first ch (b.subscribers id)) })
    else some b

unfoldable pub send_all : Event → List ℕ → EventBus → Option EventBus
unfolding send
send_all e [] b = some b
send_all e (ch ∷ chs) b = elim (send e ch b) [ none ↦ none | some b' ↦ send_all e chs b' ]

unfoldable pub publish : Uuid → Event → EventBus → Option EventBus
unfolding send_all
publish id e b = send_all e (b.subscribers id) b

unfoldable pub close_all : List ℕ → EventBus → Option EventBus
unfolding close
close_all [] b = some b
close_all (ch ∷ chs) b = elim (close ch b) [ none ↦ none | some b' ↦ close_all chs b' ]

unfoldable pub cleanup : Uuid → EventBus → Option EventBus
unfolding close_all
cleanup id b = elim (close_all (b.subscribers id) b) [
  | none ↦ none
  | some b' ↦ some (record b' { subscribers = update b'.subscribers id [] })
]

-- A reader takes the first event of a channel, if there is one.
unfoldable pub receive : ℕ → EventBus → EventBus
receive ch b = elim (b.channels ch).buffer [
  | [] ↦ b
  | e ∷ rest ↦ record b {
    channels = update b.channels ch (record (b.channels ch) { buffer = rest });
  }
]

-- What the goroutines of the program do to a bus.
pub data Operation : Type 0 where
  subscribing : Uuid → Operation
  unsubscribing : Uuid → ℕ → Operation
  publishing : Uuid → Event → Operation
  cleaning : Uuid → Operation
  receiving : ℕ → Operation

unfoldable pub perform : Operation → EventBus → Option EventBus
unfolding subscribe unsubscribe publish cleanup receive
perform (subscribing id) b = some (subscribe id b)
perform (unsubscribing id ch) b = unsubscribe id ch b
perform (publishing id e) b = publish id e b
perform (cleaning id) b = cleanup id b
perform (receiving ch) b = some (receive ch b)

unfoldable pub perform_all : List Operation → EventBus → Option EventBus
unfolding perform
perform_all [] b = some b
perform_all (o ∷ l) b = elim (perform o b) [ none ↦ none | some b' ↦ perform_all l b' ]
