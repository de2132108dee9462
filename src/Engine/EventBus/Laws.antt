-- ===== src/Engine/EventBus/Laws.antt =====
-- No sequence of operations makes the bus panic.
use react_go_workflow.Prelude.{refl, List, [], ◌∷◌}
use react_go_workflow.Engine.EventBus.{
  EventBus, new_event_bus, publish, Operation, subscribing, unsubscribing, publishing, cleaning,
  receiving, perform, perform_all,
}
use react_go_workflow.Engine.EventBus.Sound.{
  IsSound, Performs, new_event_bus-IsSound, receive-IsSound, send_all-Performs,
}
use react_go_workflow.Engine.EventBus.Subscriptions.{
  cleanup-Performs, subscribe-IsSound, unsubscribe-Performs,
}

pub perform-Performs : (o : Operation) (b : EventBus) → IsSound b → Performs (perform o b)
unfolding perform
perform-Performs (subscribing id) b h = (_, refl, subscribe-IsSound id b h)
perform-Performs (unsubscribing id ch) b h = unsubscribe-Performs id ch b h
perform-Performs (publishing id e) b h =
    unfold publish in send_all-Performs e (b.subscribers id) b h (h.is_open id)
perform-Performs (cleaning id) b h = cleanup-Performs id b h
perform-Performs (receiving ch) b h = (_, refl, receive-IsSound ch b h)

perform_all-Performs : (l : List Operation) (b : EventBus) → IsSound b → Performs (perform_all l b)
unfolding perform_all
perform_all-Performs [] b h = (b, refl, h)
perform_all-Performs (o ∷ l) b h =
    let (u, went, sound) = perform-Performs o b h in
    let (t, rest, end) = perform_all-Performs l u sound in (t, rw (went, perform_all) rest, end)

-- Whatever sequence of subscriptions, unsubscriptions, publications, cleanups and receptions a new bus
-- goes through, it does not panic (no send to a closed channel and no second close), every channel that
-- is subscribed at the end is open, stands once and belongs to one execution, and no buffer is over its
-- capacity of 64.
pub new_event_bus-Performs : (l : List Operation) → Performs (perform_all l new_event_bus)
new_event_bus-Performs l = perform_all-Performs l new_event_bus new_event_bus-IsSound
