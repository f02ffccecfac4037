-- ===== src/Timer/Insert.antt =====
-- The first connection of a descriptor in `timer_insert` (src/timer.c)
use lidas.Base.{ℕ, ◌≡◌, List, arith, fault, Returns-inv}
use lidas.Memory.Cache.Chain.{IsFree, mem_cache_alloc_lem}
use lidas.Timer.{State, Given, timer_insert}

-- `timer_insert` writes through NULL for every descriptor that has no timer yet, whatever cells are
-- free: `mem_pool_creat` reaches the connection through `timer_data_lst[fd]`, and the new timer is
-- put there only afterwards. So no connection ever gets a timer.
pub timer_insert-faults :
    (g : Given) (fd pfd : ℕ) (s : State) (free : List ℕ)
    → IsFree s.cache free
    → s.timer_data_lst fd ≡ 0
    → timer_insert g fd pfd s ≡ fault
unfolding timer_insert
timer_insert-faults g fd pfd s free f h =
    let (r, e, p) = Returns-inv (mem_cache_alloc_lem s.cache free f) in rw (e, h) (ground arith)
