-- ===== src/Timer.antt =====
-- src/timer.c: the connections with a time limit, and src/manager.c, which calls `timer_task` on each
-- alarm. A `struct timer_t` stands at an address, 0 being NULL. What the system returns (`malloc`,
-- the date, the calls on the log file) is an argument, and what is asked of it is a list of calls.
pub mod Insert
pub mod Task
pub mod Cleaned
mod Tests
use lidas.Base.{
  ℕ, zero, suc, ◌+◌, ◌-◌, ◌/◌, Bool, ◌&&◌, Option, none, some, List, [], ◌∷◌, ◌++◌, ltb, ◌==◌,
  if◌then◌else◌, Run, ok, fault, exited, out_of_fuel, ◌>>=◌, ◌>>◌, Status, is_success,
}
use lidas.Queue.{Queue, queue_in, queue_out}
use lidas.Memory.Cache.{Cache, mem_cache_alloc, mem_cache_free}
use lidas.Memory.Pool.{Page, mem_pool_creat, mem_pool_destroy}
use lidas.Log.{BufLog, LogCall, buf_log_init, buf_log_destroy}

-- `struct timer_t`; `pool` is empty where the pointer is NULL
pub record Timer : Type 0 where
  pub fd : ℕ
  pub pfd : ℕ
  pub time : ℕ
  pub thread_id : ℕ
  pub pool : List Page
  pub log_pool : Option BufLog

-- the timers by address, `timer_data_lst`, the queue of a listener and the cache of its timers
pub record State : Type 0 where
  pub timers : ℕ → Timer
  pub timer_data_lst : ℕ → ℕ
  pub queue : Queue
  pub cache : Cache

pub data SystemCall : Type 0 where
  epoll_del : ℕ → SystemCall
  log : List LogCall → SystemCall
  hang_up : ℕ → SystemCall
  free : List ℕ → SystemCall

abbrev put_timer : (ℕ → Timer) → ℕ → Timer → ℕ → Timer
put_timer timers a t b = if a == b then t else timers b

abbrev pub put_address : (ℕ → ℕ) → ℕ → ℕ → ℕ → ℕ
put_address lst fd a b = if fd == b then a else lst b

-- what the system gives to `timer_insert`: the time, the page, and the texts of the log
pub record Given : Type 0 where
  pub now : ℕ
  pub block : ℕ
  pub words : ℕ → ℕ
  pub date : List ℕ
  pub addr : List ℕ

abbrev or_null : Option (List Page) → List Page
or_null none = []
or_null (some pool) = pool

-- `timer_insert`. `mem_pool_creat` and `buf_log_init` reach the connection through the old
-- `timer_data_lst[fd]`, whose pool becomes the new one.
pub timer_insert : Given → (fd pfd : ℕ) → State → Run (Status × State)
timer_insert g fd pfd s =
    let old = s.timer_data_lst fd in
    mem_cache_alloc s.cache >>= (λ (p, cache).
      if p == 0
      then fault
      else if old == 0
      then fault
      else (buf_log_init g.date g.addr (or_null (mem_pool_creat g.block g.words))
          >>= (λ (log_pool, pool). queue_in s.queue p >>= (λ (r, queue). ok (
            r,
            record {
              timers =
                  put_timer (put_timer s.timers old (record (s.timers old) { pool = pool })) p
                    (record {
                      fd = fd;
                      pfd = pfd;
                      time = g.now;
                      thread_id = 0;
                      pool = pool;
                      log_pool = some log_pool;
                    });
              timer_data_lst =
                  if is_success r then put_address s.timer_data_lst fd p else s.timer_data_lst;
              queue = queue;
              cache = cache;
            },
          )))))

-- the pool of a timer is released if it has one
abbrev pub release : List Page → Run (List ℕ)
release [] = ok []
release (p ∷ ps) = mem_pool_destroy (p ∷ ps)

-- the results of the calls on the log file
pub record LogResults : Type 0 where
  pub locked : Status
  pub writes : List Status

-- `timer_cleaner`
pub timer_cleaner : LogResults → (fd : ℕ) → State → Run (List SystemCall × State)
timer_cleaner r fd s =
    let p = s.timer_data_lst fd in
    let t = s.timers p in
    if p == 0
    then fault
    else (buf_log_destroy r.locked r.writes t.log_pool >>= (λ logged. release t.pool >>= (λ freed.
        mem_cache_free p s.cache >>= (λ cache. ok (
          (if t.pfd == 0 then [] else epoll_del t.pfd ∷ [])
              ++ (log logged ∷ hang_up t.thread_id ∷ free freed ∷ epoll_del fd ∷ []),
          record s { timer_data_lst = put_address s.timer_data_lst fd 0; cache = cache },
        )))))

-- The part of `timer_task` for a connection whose time is over. `again` is the call of itself.
abbrev pub clean_up :
    (again : State → Run (List SystemCall × State))
    → LogResults
    → (fd : ℕ) (stopped : Bool) → State
    → Run (List SystemCall × State)
clean_up again r fd stopped s = timer_cleaner r fd s >>= (λ (calls, s').
    if (s'.queue.head == s'.queue.tail) && stopped
    then exited
    else (again s' >>= (λ (later, last). ok (calls ++ later, last))))

-- `timer_task`: a round for each call that it makes of itself. `stopped` is `listen_del_flag`.
pub timer_task :
    (rounds : ℕ)
    → LogResults
    → (keep_alive : ℕ) (stopped : Bool) (cur_time : ℕ) → State
    → Run (List SystemCall × State)
unfolding timer_cleaner
timer_task zero r keep_alive stopped cur_time s = out_of_fuel
timer_task (suc n) r keep_alive stopped cur_time s =
    let again = timer_task n r keep_alive stopped cur_time in
    queue_out s.queue >>= (λ (p, queue).
      let t = s.timers p in
      let s' = record s { queue = queue } in
      if p == 0
      then again s'
      else if ltb keep_alive (cur_time - t.time)
      then clean_up again r t.fd stopped s'
      else (queue_in queue p >>= (λ (status, queue2). ok ([], record s { queue = queue2 }))))

-- the seconds between two alarms, `task_timeout` of `manager_thread`
unfoldable task_timeout : (keep_alive : ℕ) → ℕ
task_timeout keep_alive = if keep_alive / 5 == 0 then 1 else keep_alive / 5

-- `timer_trigger`: the calls of `timer_task`, and the seconds to the next alarm
unfoldable timer_trigger :
    (rounds : ℕ)
    → LogResults
    → (keep_alive : ℕ) (stopped : Bool) (cur_time : ℕ) → State
    → Run (ℕ × State)
unfolding timer_task task_timeout
timer_trigger n r keep_alive stopped cur_time s = do
  (calls, s') ← timer_task n r keep_alive stopped cur_time s
  ok (task_timeout keep_alive, s')
