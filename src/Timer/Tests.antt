-- ===== src/Timer/Tests.antt =====
-- `timer_insert` and `timer_task` with one connection, whose timer stands at 64
use lidas.Base.{
  ℕ, ◌≡◌, refl, false, none, some, List, [], ◌∷◌, arith, ◌==◌, if◌then◌else◌, fault, success,
  Returns,
}
use lidas.Queue.{Queue}
use lidas.Queue.Valid.{IsValid}
use lidas.Queue.Refine.{contents}
use lidas.Memory.Cache.{Cache}
use lidas.Memory.Cache.Chain.{IsFree}
use lidas.Log.{BufLog, LogCall, lock, unlock, write, farewell}
use lidas.Timer.{Timer, State, Given, LogResults, timer_insert, timer_task}
use lidas.Timer.Insert.{timer_insert-faults}
use lidas.Timer.Task.{NeverReturns, timer_task-empty, timer_task-keeps, timer_task-all_over}

abbrev timer : Timer
timer = record { fd = 5; pfd = 0; time = 100; thread_id = 9; pool = []; log_pool = none }

abbrev ring : (head : ℕ) → Queue
ring head = record { max = 3; head = head; tail = 0; slots = 64 ∷ 0 ∷ 0 ∷ [] }

abbrev cache : Cache
cache = record {
  at = 8;
  size = 56;
  num = 1;
  next = 200;
  cells = λ a. record { prev = 0; next = 256 };
}

abbrev state : (head : ℕ) → State
state head = record {
  timers = λ a. timer;
  timer_data_lst = λ fd. if fd == 5 then 64 else 0;
  queue = ring head;
  cache = cache;
}

abbrev results : LogResults
results = record { locked = success; writes = success ∷ [] }

ring-IsValid : IsValid (ring 1)
ring-IsValid = record { room = refl; head_in = omega arith; tail_in = omega arith }

cache-IsFree : IsFree cache (200 ∷ [])
cache-IsFree = record { chain = (refl, ground arith, tt, ground arith); number = refl }

abbrev given : Given
given = record { now = 100; block = 4096; words = λ a. 0; date = []; addr = [] }

timer_insert-faults_test : timer_insert given 7 0 (state 0) ≡ fault
timer_insert-faults_test = timer_insert-faults given 7 0 (state 0) (200 ∷ []) cache-IsFree refl

timer_task-empty_test : NeverReturns (λ n. timer_task n results 60 false 200 (state 0))
timer_task-empty_test = timer_task-empty results 60 false 200 (state 0) refl

timer_task-keeps_test :
    Returns
      (λ (calls, s').
        (calls ≡ [])
        × IsValid s'.queue
        × (contents s'.queue ≡ 64 ∷ [])
        × (s'.timer_data_lst ≡ (state 1).timer_data_lst)
        × (s'.cache ≡ (state 1).cache)
        × (s'.timers ≡ (state 1).timers))
      (timer_task 1 results 60 false 130 (state 1))
timer_task-keeps_test =
    timer_task-keeps 0 results 60 false 130 64 [] (state 1) ring-IsValid refl (ground arith)
      (omega arith)

timer_task-all_over_test : NeverReturns (λ n. timer_task n results 60 false 200 (state 1))
timer_task-all_over_test =
    timer_task-all_over results 60 200 (state 1) ring-IsValid (omega arith, tt)

abbrev first_log : BufLog
first_log = record { content = 1 ∷ 2 ∷ []; entries = [] }

-- the connection of the timer at 64, whose time is over, and one of that at 128, whose time is not
abbrev both : State
both = record (state 1) {
  timers = λ a.
      if a == 64
      then record timer { log_pool = some first_log }
      else record timer { fd = 6; time = 190 };
  queue = record { max = 3; head = 2; tail = 0; slots = 64 ∷ 128 ∷ 0 ∷ [] };
}

abbrev log_calls : List LogCall
log_calls = lock ∷ write (1 ∷ 2 ∷ []) ∷ write farewell ∷ unlock ∷ []
