-- ===== src/Listener/Accept.antt =====
-- src/listener.c: the locks, the tests of the event loop, and the accepting of clients. The answers of
-- the system are arguments.
use lidas.Base.{
  ℕ, ◌^◌, Bool, true, false, not, ◌&&◌, ◌||◌, Option, none, some, List, [], ◌∷◌, ◌++◌, ◌==◌,
  if◌then◌else◌, Run, ok, fault, exited, Status, success, failure, is_success,
}

-- `struct flock`, less the process
pub record Flock : Type 0 where
  l_type : ℕ
  l_start : ℕ
  l_whence : ℕ
  l_len : ℕ

-- `lida_lock_init`; SEEK_SET is 0
unfoldable lida_lock_init : (type : ℕ) → Flock
lida_lock_init type = record { l_type = type; l_start = 0; l_whence = 0; l_len = 0 }

-- `lock_reg`, with `fcntl` as an argument
unfoldable lock_reg :
    (fcntl : ℕ → ℕ → Flock → Status) → (fd cmd type offset whence len : ℕ) → Status
lock_reg fcntl fd cmd type offset whence len =
    fcntl fd cmd (record { l_type = type; l_start = offset; l_whence = whence; l_len = len })

-- `lock_test`, with what `fcntl` answers: the type of a lock in the way and its process. `none` is
-- an error, for which it returns -1.
unfoldable lock_test : (answer : Option (ℕ × ℕ)) → (f_unlck : ℕ) → Option ℕ
lock_test none f_unlck = none
lock_test (some (l_type, l_pid)) f_unlck = if l_type == f_unlck then some 0 else some l_pid

-- what the loop of `lida_listener_proc` does with an event of `epoll_wait`
pub data Handler : Type 0 where
  destruct : (logged : Bool) → Handler
  read : Handler
  write : Handler
  ignore : Handler

-- The `switch` of `lida_listener_proc`, which compares the whole set of flags with EPOLLERR (8),
-- EPOLLHUP (16), EPOLLRDHUP (2 ^ 13), EPOLLIN (1) and EPOLLOUT (4)
unfoldable pub handler_of : (events : ℕ) → Handler
handler_of events =
    if events == 8
    then destruct true
    else if (events == 16) || (events == 2 ^ 13)
    then destruct false
    else if events == 1
    then read
    else if events == 4
    then write
    else ignore

-- what `fcntl` says to a try for the lock of the listening socket
pub data Locked : Type 0 where
  acquired : Locked
  busy : Locked
  lock_error : Locked

-- The try of `lida_listener_proc` for the listening socket: `event_flag` afterwards. `added` is what
-- `epoll_ctl` returns.
unfoldable pub try_listen :
    (full stopped : Bool) → Locked → (added : Status) → (event_flag : Bool) → Run Bool
try_listen full stopped locked added event_flag =
    if not full || not stopped
    then elim locked [
      | acquired ↦ if is_success added then ok true else exited
      | busy ↦ ok false
      | lock_error ↦ exited
    ]
    else ok event_flag

-- what `accept` returns
pub data Accepted : Type 0 where
  client : ℕ → Accepted
  interrupted : Accepted
  not_accepted : Accepted

-- the steps of `listen_event` for a client
pub data Step : Type 0 where
  watch_client : ℕ → Step
  insert_timer : ℕ → Step
  unlock : Step
  unwatch : Step

-- `listen_event`. `cell` is what `mem_cache_alloc` returns, and the others are the results of its
-- calls. Where the function ends without a `return`, its value is taken for 0.
unfoldable pub listen_event :
    Accepted
    → (nonblock : Status) (cell : ℕ) (added : Status) (timer_flag : Bool)
      (unlocked deleted : Status)
    → Run (Status × List Step)
listen_event interrupted nonblock cell added timer_flag unlocked deleted = ok (success, [])
listen_event not_accepted nonblock cell added timer_flag unlocked deleted = ok (failure, [])
listen_event (client fd) nonblock cell added timer_flag unlocked deleted =
    let timer = if is_success added && timer_flag then insert_timer fd ∷ [] else [] in
    if not (is_success nonblock)
    then ok (failure, [])
    else if cell == 0
    then fault
    else if not (is_success unlocked)
    then ok (failure, watch_client fd ∷ timer ++ (unlock ∷ []))
    else ok (deleted, watch_client fd ∷ timer ++ (unlock ∷ unwatch ∷ []))
