-- ===== src/Listener/Redirect.antt =====
-- Which thread the listener (src/listener.c) gives an event to, and which events it handles
use lidas.Base.{
  ℕ, ◌^◌, ◌≡◌, refl, ◌≢◌, Bool, true, false, ◌&&◌, none, some, List, [], ◌∷◌, ◌++◌, if◌then◌else◌,
  ne→==, ok, fault, Status, success, failure, is_success, Returns, returns,
}
use lidas.Listener.{
  common_rdevent, proxy_rdevent, proxy_wrevent, EventData, err_log, signal, start_thread, watch,
  Answers, sigcont, set_thread, rd_event_redirect, read_fd, is_listen, write_fd, out_event_redirect,
}
use lidas.Listener.Accept.{
  ignore, handler_of, client, Step, watch_client, insert_timer, unlock, unwatch, listen_event,
}

common-fd :
    (obj : EventData)
    → obj.type ≡ common_rdevent
    → (is_listen obj ≡ false) × (read_fd obj ≡ some obj.fd)
unfolding is_listen read_fd
common-fd obj t = (rw t refl, rw t refl)

-- `rd_event_redirect` of a client's request: if the connection has a thread and SIGCONT reaches it,
-- that thread is woken and nothing else is done. Otherwise a new thread is started and remembered
-- for the connection, whatever it is, and the socket is watched only for its end.
pub rd_event_redirect-client :
    (msock thread : ℕ) (accepted : Status) (a : Answers) (obj : EventData)
    → obj.type ≡ common_rdevent
    → a.thread_of obj.fd ≡ some thread
    → (thread ≢ 0
        → a.delivered thread sigcont ≡ true
        → rd_event_redirect msock accepted a obj ≡ ok (signal thread sigcont ∷ [], a.thread_of))
      × (thread ≢ 0
          → a.delivered thread sigcont ≡ false
          → rd_event_redirect msock accepted a obj
            ≡ ok (
              signal thread sigcont ∷ err_log obj.fd ∷ start_thread obj ∷ watch obj.fd ∷ [],
              set_thread a.thread_of obj.fd a.new_thread,
            ))
      × (thread ≡ 0
          → rd_event_redirect msock accepted a obj
            ≡ ok (start_thread obj ∷ watch obj.fd ∷ [], set_thread a.thread_of obj.fd a.new_thread))
unfolding rd_event_redirect
rd_event_redirect-client msock thread accepted a obj t h =
    let (l, f) = common-fd obj t in
    (
      (λ real alive. rw (l, f, h, ne→== _ _ real, alive) refl),
      (λ real lost. rw (l, f, h, ne→== _ _ real, lost) refl),
      (λ none_yet. rw (l, f, h, none_yet) refl),
    )

-- An event of a backend's socket that has no timer is a fault, to read as well as to write. No
-- socket of a backend gets a timer, since `timer_insert` is called only for clients.
pub redirect-backend :
    (msock : ℕ) (accepted : Status) (a : Answers) (obj : EventData)
    → a.thread_of obj.pfd ≡ none
    → (obj.type ≡ proxy_rdevent → rd_event_redirect msock accepted a obj ≡ fault)
      × (obj.type ≡ proxy_wrevent → out_event_redirect a obj ≡ fault)
unfolding is_listen read_fd write_fd rd_event_redirect out_event_redirect
redirect-backend msock accepted a obj h = ((λ t. rw (t, h) refl), (λ t. rw (t, h) refl))

-- The loop of `lida_listener_proc` ignores every set of two or more flags: an event is handled only
-- if its flags are exactly one of the five.
pub handler_of-ignores :
    (events : ℕ)
    → events ≢ 8
    → events ≢ 16
    → events ≢ 2 ^ 13
    → events ≢ 1
    → events ≢ 4
    → handler_of events ≡ ignore
unfolding handler_of
handler_of-ignores events a b c d e =
    rw (ne→== _ _ a, ne→== _ _ b, ne→== _ _ c, ne→== _ _ d, ne→== _ _ e) refl

abbrev pub Unlocks : List Step → Type 0
Unlocks [] = ⊥
Unlocks (watch_client fd ∷ s) = Unlocks s
Unlocks (insert_timer fd ∷ s) = Unlocks s
Unlocks (unlock ∷ s) = Unit
Unlocks (unwatch ∷ s) = Unlocks s

Unlocks-after :
    (b : Bool) (fd : ℕ) (rest : List Step)
    → Unlocks ((if b then insert_timer fd ∷ [] else []) ++ (unlock ∷ rest))
Unlocks-after true fd rest = tt
Unlocks-after false fd rest = tt

-- Once `listen_event` has a client and a free event, it gives the lock of the listening socket back,
-- whatever fails afterwards. If the client cannot be made non-blocking, it returns -1 and keeps it.
pub listen_event-Unlocks :
    (fd cell : ℕ) (added : Status) (timer_flag : Bool) (unlocked deleted : Status)
    → (cell ≢ 0
        → Returns
            (λ r. Unlocks r.1)
            (listen_event (client fd) success cell added timer_flag unlocked deleted))
      × (listen_event (client fd) failure cell added timer_flag unlocked deleted ≡ ok (failure, []))
unfolding listen_event
listen_event-Unlocks fd cell added timer_flag success deleted = (
  (λ real. rw (ne→== _ _ real) (returns (Unlocks-after (is_success added && timer_flag) fd _))),
  refl,
)
listen_event-Unlocks fd cell added timer_flag failure deleted = (
  (λ real. rw (ne→== _ _ real) (returns (Unlocks-after (is_success added && timer_flag) fd _))),
  refl,
)
