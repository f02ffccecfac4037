-- ===== src/Listener/Process.antt =====
-- `lida_listener_proc` of src/listener.c with `listener_signal` and `listener_kill`: the start of a
-- listener process, and a round of its event loop. What the system and the allocator return is an
-- argument.
use lidas.Base.{
  ◌>>=◌, ◌>>◌, ℕ, ◌*◌, Bool, true, Option, none, some, List, [], ◌∷◌, ◌++◌, ltb, if◌then◌else◌, Run,
  ok, or_fault, exited, Status, success, failure,
}
use lidas.Queue.{Queue, queue_init}
use lidas.Memory.Cache.{Cache, Cell, mem_cache_creat}
use lidas.Config.{ServerBasic}
use lidas.Thread.{Created, ThreadPool, thread_pool_init}
use lidas.Listener.{
  EventData, Action, log_access, Answers, rd_event_redirect, out_event_redirect, connect_destruct,
}
use lidas.Listener.Accept.{handler_of, destruct, read, write, ignore, Locked, try_listen}

-- `ERR_EXIT`, or `exit (1)` behind an entry in the log, if the call failed
abbrev checked : Status → Run (Unit {0})
checked success = ok tt
checked failure = exited

-- `listener_kill`, the handler of SIGINT: `listen_del_flag` afterwards
unfoldable listener_kill : (deleted : Status) → Run Bool
listener_kill deleted = checked deleted >>= (λ done. ok true)

-- `listener_signal`
pub listener_signal : (masked installed : Status) → Run (Unit {0})
listener_signal masked installed = checked masked >> checked installed

-- `ERR_EXIT`
abbrev err_exit : Run (Unit {0})
err_exit = exited

-- what the calls at the start of `lida_listener_proc` return, with what stands in the new blocks
pub record Startup : Type 0 where
  pub timer_block : ℕ
  pub timer_memory : ℕ → Cell
  pub mutex : Status
  pub pool_mutex : Status
  pub garbage : ℕ
  pub results : List Created
  pub thread_nodes : List ℕ
  pub manager : Status
  pub masked : Status
  pub installed : Status
  pub event_block : ℕ
  pub event_memory : ℕ → Cell

-- the timers of a listener, if it has any: their cache and their ring
abbrev pub init_timer : ServerBasic → Startup → Run (Option (Cache × Queue))
init_timer b s =
    if ltb 0 b.keep_alive
    then (mem_cache_creat s.timer_block s.timer_memory 8 (2 * b.connect)
        >>= (λ (n, pool). ok (some (pool, queue_init (2 * b.keep_alive) 0 []))))
    else ok none

-- what a listener has ready when it comes to its loop
pub record Ready : Type 0 where
  pub timer : Option (Cache × Queue)
  pub threads : ThreadPool
  pub events : Cache

-- the global `thread_pool`: a NULL pointer, which nothing ever sets
abbrev pub thread_pool : Option ThreadPool
thread_pool = none

-- `lida_listener_proc` up to `proxy_init` and the loop. `sizeof (timer_t)` is the size of the type of
-- that name of the C library, a pointer, and `sizeof (struct event_data)` is 64. The semicolon behind
-- the test of `epoll_create` ends the `if`: `ERR_EXIT` stands for itself, whatever the call returns.
unfoldable pub lida_listener_proc : ServerBasic → Startup → Run Ready
unfolding listener_signal
lida_listener_proc b s = do
  timer ← init_timer b s
  mutex ← checked s.mutex
  pool ← or_fault thread_pool
  (r, threads) ← thread_pool_init s.pool_mutex s.garbage b.max_thread s.results s.thread_nodes pool
  pool_ready ← checked r
  manager ← checked s.manager
  signals ← listener_signal s.masked s.installed
  (n, events) ← mem_cache_creat s.event_block s.event_memory 64 b.connect
  stop ← err_exit
  ok (record { timer = timer; threads = threads; events = events })

-- an event of `epoll_wait`: its flags and its `data.ptr`, with what `listen_event`, `queue_out` and
-- `load_balance` return if they are called for it
pub record Event : Type 0 where
  pub events : ℕ
  pub obj : EventData
  pub accepted : Status
  pub taken : ℕ
  pub balanced : ℕ

abbrev pub Threads : Type 0
Threads = ℕ → Option ℕ

-- the `switch` of the loop for one event: the actions, and the threads afterwards
unfoldable pub handle_event : (sock : ℕ) → Answers → Event → Run (List Action × Threads)
unfolding handler_of rd_event_redirect out_event_redirect connect_destruct
handle_event sock a e = elim (handler_of e.events) [
  | destruct logged ↦
      connect_destruct sock e.taken e.balanced a e.obj
      >>= (λ actions. ok ((if logged then log_access ∷ actions else actions), a.thread_of))
  | read ↦ rd_event_redirect sock e.accepted a e.obj
  | write ↦ out_event_redirect a e.obj >>= (λ actions. ok (actions, a.thread_of))
  | ignore ↦ ok ([], a.thread_of)
]

-- the `for` over the events
unfoldable pub handle_events : (sock : ℕ) → Answers → List Event → Run (List Action × Threads)
unfolding handle_event
handle_events sock a [] = ok ([], a.thread_of)
handle_events sock a (e ∷ es) = do
  (actions, threads) ← handle_event sock a e
  (later, threads') ← handle_events sock (record a { thread_of = threads }) es
  ok (actions ++ later, threads')

-- a round of the loop: `event_flag` afterwards, the actions and the threads; `ready` is what
-- `epoll_wait` gives, if it does not fail
unfoldable pub listener_round :
    (sock : ℕ)
    → Answers
    → (full stopped : Bool) → Locked
    → (added : Status) (event_flag : Bool) → (ready : Option (List Event))
    → Run (Bool × List Action × Threads)
unfolding try_listen handle_events
listener_round sock a full stopped locked added event_flag ready = do
  flag ← try_listen full stopped locked added event_flag
  events ← elim ready [ none ↦ exited | some es ↦ ok es ]
  (actions, threads) ← handle_events sock a events
  ok (flag, actions, threads)
