-- ===== src/Listener.antt =====
-- src/listener.c: what a listener process does with the events of its sockets. The system's answers
-- are arguments, and what is asked of the system or of other parts is a list of actions. An event's
-- `struct event_data` is kept by value.
pub mod Accept
pub mod Redirect
pub mod Process
pub mod Loop
mod Tests
use lidas.Base.{
  ℕ, ◌+◌, Bool, true, false, Option, none, some, List, [], ◌∷◌, ◌++◌, ◌==◌, if◌then◌else◌, Run, ok,
  exited, ◌>>=◌, ◌>>◌, or_fault, Status, is_success,
}

-- `type` of `struct event_data`, by the names of src/listener.h
pub data EventType : Type 0 where
  listen_event_type : EventType
  common_rdevent : EventType
  common_wrevent : EventType
  proxy_rdevent : EventType
  proxy_wrevent : EventType
  proxy_reconnect : EventType
  other_type : EventType

-- `struct event_data`, as far as the listener reads it; `tmp` and `f_tmp` tell whether they are set
pub record EventData : Type 0 where
  pub fd : ℕ
  pub pfd : ℕ
  pub type : EventType
  pub node : ℕ
  pub tmp : Bool
  pub f_tmp : Bool

pub data Action : Type 0 where
  accept : Action
  log_access : Action
  err_log : (fd : ℕ) → Action
  post_error : (fd status : ℕ) → Action
  signal : (thread sig : ℕ) → Action
  start_thread : EventData → Action
  handle_here : EventData → Action
  watch : (fd : ℕ) → Action
  clean_timer : (fd : ℕ) → Action
  free_tmp : Action
  close_tmp : Action
  rewind_tmp : Action
  return_fd : (node pfd : ℕ) → Action
  free_event : Action

-- What the other parts answer: the thread that `timer_data_lst` has for a descriptor (`none` if
-- there is no timer), whether `pthread_kill` delivers a signal to a thread, and the thread that
-- `thread_pool_alloc` gives.
pub record Answers : Type 0 where
  pub thread_of : ℕ → Option ℕ
  pub delivered : (thread sig : ℕ) → Bool
  pub new_thread : ℕ

abbrev pub sigcont : ℕ
sigcont = 18

-- `timer_data_lst` after an assignment to the `thread_id` of a descriptor
abbrev pub set_thread : (ℕ → Option ℕ) → (fd thread : ℕ) → ℕ → Option ℕ
set_thread threads fd thread b = if fd == b then some thread else threads b

-- the descriptor at which an event to read, or to write, is handled
pub read_fd : EventData → Option ℕ
read_fd obj = elim obj.type [
  | listen_event_type ↦ none
  | common_rdevent ↦ some obj.fd
  | common_wrevent ↦ none
  | proxy_rdevent ↦ some obj.pfd
  | proxy_wrevent ↦ none
  | proxy_reconnect ↦ none
  | other_type ↦ none
]

pub write_fd : EventData → Option ℕ
write_fd obj = elim obj.type [
  | listen_event_type ↦ none
  | common_rdevent ↦ none
  | common_wrevent ↦ some obj.fd
  | proxy_rdevent ↦ none
  | proxy_wrevent ↦ some obj.pfd
  | proxy_reconnect ↦ none
  | other_type ↦ none
]

pub is_listen : EventData → Bool
is_listen obj = elim obj.type [
  | listen_event_type ↦ true
  | common_rdevent ↦ false
  | common_wrevent ↦ false
  | proxy_rdevent ↦ false
  | proxy_wrevent ↦ false
  | proxy_reconnect ↦ false
  | other_type ↦ false
]

-- A new thread for the event. The test of the `pthread_t` against 0 never holds.
abbrev hand_over : Answers → EventData → (fd : ℕ) → List Action → Run (List Action × (ℕ → Option ℕ))
hand_over a obj fd before =
    ok (before ++ (start_thread obj ∷ watch fd ∷ []), set_thread a.thread_of fd a.new_thread)

-- `rd_event_redirect`, with what `listen_event` returns: the actions, and the threads afterwards
pub rd_event_redirect :
    (msock : ℕ) (accepted : Status) → Answers → EventData → Run (List Action × (ℕ → Option ℕ))
unfolding read_fd is_listen
rd_event_redirect msock accepted a obj =
    if is_listen obj
    then ok (
      (if obj.fd == msock
          then accept ∷ (if is_success accepted then [] else log_access ∷ [])
          else log_access ∷ []),
      a.thread_of,
    )
    else elim (read_fd obj) [
      | none ↦ ok ([], a.thread_of)
      | some fd ↦ or_fault (a.thread_of fd) >>= (λ thread.
          if thread == 0
          then hand_over a obj fd []
          else if a.delivered thread sigcont
          then ok (signal thread sigcont ∷ [], a.thread_of)
          else hand_over a obj fd (signal thread sigcont ∷ err_log obj.fd ∷ []))
    ]

-- `request_destruct`
unfoldable request_destruct : (fd : ℕ) → EventData → List Action
request_destruct fd obj =
    clean_timer fd ∷ (if obj.tmp then free_tmp ∷ [] else [])
    ++ ((if obj.f_tmp then close_tmp ∷ [] else [])
        ++ (return_fd obj.node obj.pfd ∷ free_event ∷ []))

-- `out_event_redirect`, which passes the two arguments of `pthread_kill` in the wrong order
pub out_event_redirect : Answers → EventData → Run (List Action)
unfolding write_fd request_destruct
out_event_redirect a obj = elim (write_fd obj) [
  | none ↦ ok []
  | some fd ↦ or_fault (a.thread_of fd) >>= (λ thread.
      if a.delivered sigcont thread
      then ok (signal sigcont thread ∷ watch fd ∷ [])
      else ok (
          signal sigcont thread ∷ post_error obj.fd 503 ∷ err_log obj.fd ∷ request_destruct fd obj))
]

-- A lost backend in `connect_destruct`: `taken` is what `queue_out` returns of the node's sockets,
-- and `balanced` what `load_balance` returns; 0 and below are no socket.
abbrev new_backend : (taken balanced : ℕ) → Option ℕ
new_backend taken balanced =
    if taken == 0 then (if balanced == 0 then none else some balanced) else some taken

abbrev reconnect : EventData → EventData
reconnect obj = record obj { fd = obj.pfd; type = proxy_reconnect }

abbrev proxy_lost : (taken balanced : ℕ) → Answers → EventData → Run (List Action)
proxy_lost taken balanced a obj = elim (new_backend taken balanced) [
  | none ↦ ok (
      start_thread (reconnect obj)
      ∷ err_log obj.fd
      ∷ post_error obj.fd 503
      ∷ request_destruct obj.pfd obj)
  | some pfd ↦
      let obj' : EventData = record obj { pfd = pfd } in
      or_fault (a.thread_of pfd) >>= (λ thread.
        if a.delivered sigcont thread
        then ok (start_thread (reconnect obj) ∷ signal sigcont thread ∷ [])
        else (or_fault (a.thread_of obj.fd) >>= (λ old. ok (
            start_thread (reconnect obj)
              ∷ signal sigcont thread
              ∷ err_log obj.fd
              ∷ (if obj.f_tmp then rewind_tmp ∷ [] else [])
            ++ (start_thread obj' ∷ [])))))
]

-- `connect_destruct`
pub connect_destruct : (master taken balanced : ℕ) → Answers → EventData → Run (List Action)
unfolding request_destruct
connect_destruct master taken balanced a obj = elim obj.type [
  | listen_event_type ↦ if obj.fd == master then exited else ok []
  | common_rdevent ↦ ok (request_destruct obj.fd obj)
  | common_wrevent ↦ ok (request_destruct obj.fd obj)
  | proxy_rdevent ↦ proxy_lost taken balanced a obj
  | proxy_wrevent ↦ proxy_lost taken balanced a obj
  | proxy_reconnect ↦ ok []
  | other_type ↦ ok []
]
