-- ===== src/Timer/Cleaned.antt =====
-- The connections that `timer_task` (src/timer.c) takes down before it comes to one whose time is not
-- over
use lidas.Base.{ℕ, ◌-◌, ◌<◌, ◌≡◌, ◌≢◌, List, [], ◌∷◌, ◌++◌, ◌==◌, if◌then◌else◌, ok, Run, ◌>>=◌}
use lidas.Queue.Spec
use lidas.Memory.Cache.{Cache, mem_cache_free}
use lidas.Log.{LogCall, buf_log_destroy}
use lidas.Timer.{put_address, release, Timer, SystemCall, epoll_del, log, hang_up, free, LogResults}

-- what is asked of the system to take a connection down: the log that is written, and the pages freed
abbrev pub calls_for : Timer → (logged : List LogCall) (freed : List ℕ) → List SystemCall
calls_for t logged freed =
    (if t.pfd == 0 then [] else epoll_del t.pfd ∷ [])
    ++ (log logged ∷ hang_up t.thread_id ∷ free freed ∷ epoll_del t.fd ∷ [])

-- no timer of the list is for the descriptor
abbrev pub LackFd : (fd : ℕ) → (ℕ → Timer) → List ℕ → Type 0
LackFd fd timers [] = Unit
LackFd fd timers (p ∷ ps) = (fd ≢ (timers p).fd) × LackFd fd timers ps

-- The timers of the list are not NULL and stand in `timer_data_lst`, each for its own descriptor; their
-- time is over; and their logs and pools can be given up. The calls are those that take them down.
pub data AreOver (r : LogResults) (keep_alive now : ℕ) (timers : ℕ → Timer) (lst : ℕ → ℕ)
    : List ℕ → List SystemCall → Type 0 where
  none_left : AreOver r keep_alive now timers lst [] []
  one_over :
      {p : ℕ} {ps : List ℕ} {logged : List LogCall} {freed : List ℕ} {calls : List SystemCall}
      → p ≢ 0
      → lst (timers p).fd ≡ p
      → buf_log_destroy r.locked r.writes (timers p).log_pool ≡ ok logged
      → release (timers p).pool ≡ ok freed
      → keep_alive < now - (timers p).time
      → LackFd (timers p).fd timers ps
      → AreOver r keep_alive now timers lst ps calls
      → AreOver r keep_alive now timers lst (p ∷ ps) (calls_for (timers p) logged freed ++ calls)

-- `timer_data_lst` once the timers of the list are taken down
abbrev pub cleared : (lst : ℕ → ℕ) → (ℕ → Timer) → List ℕ → ℕ → ℕ
cleared lst timers [] = lst
cleared lst timers (p ∷ ps) = cleared (put_address lst (timers p).fd 0) timers ps

-- the cells of the timers of the list, given back to the cache
abbrev pub free_cells : List ℕ → Cache → Run Cache
free_cells [] c = ok c
free_cells (p ∷ ps) c = mem_cache_free p c >>= free_cells ps
