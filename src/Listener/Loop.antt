-- ===== src/Listener/Loop.antt =====
-- What a listener process of src/listener.c comes to: its start, and the events that it handles
use lidas.Base.{ℕ, ◌≡◌, ◌≢◌, refl, List, [], ◌∷◌, ok}
use lidas.Listener.{Answers}
use lidas.Listener.Redirect.{handler_of-ignores}
use lidas.Listener.Process.{Event, handle_event, handle_events}

-- a set of flags that is none of the five that the loop tests for
abbrev pub IsCombined : Event → Type 0
IsCombined e =
    (e.events ≢ 1) × (e.events ≢ 4) × (e.events ≢ 8) × (e.events ≢ 16) × (e.events ≢ 8192)

abbrev pub AllCombined : List Event → Type 0
AllCombined [] = Unit
AllCombined (e ∷ es) = IsCombined e × AllCombined es

-- Events with more than one flag, or another one, are passed over: nothing is done for them and no
-- thread changes. The listener asks for EPOLLIN with EPOLLRDHUP, and gets both at once when a client
-- closes its side.
pub handle_events-IsCombined :
    (sock : ℕ) (a : Answers) (es : List Event)
    → AllCombined es
    → handle_events sock a es ≡ ok ([], a.thread_of)
unfolding handle_events handle_event
handle_events-IsCombined sock a [] h = refl
handle_events-IsCombined sock a (e ∷ es) h =
    rw
      (
        handle_events,
        handle_event,
        handler_of-ignores e.events h.0.2 h.0.3 h.0.4 h.0.0 h.0.1,
        handle_events-IsCombined sock a es h.1,
      )
      refl
