-- ===== src/Thread/Tests.antt =====
-- Pools of two threads and of one
use lidas.Base.{
  ℕ, ◌≡◌, refl, true, false, [], ◌∷◌, arith, ◌==◌, if◌then◌else◌, ok, fault, success, Returns, IfOk,
}
use lidas.QueueChain.{Node, Control}
use lidas.QueueChain.Links.{Item, Holds}
use lidas.Thread.{
  ThreadPool, created, not_created, thread_pool_init, delivered, wake, no_thread, thread_pool_alloc,
  sigcont, other_signal, thread_event_wait,
}
use lidas.Thread.Pool.{thread_pool_init-queues, thread_pool_alloc-oldest, thread_pool_alloc-short}
use lidas.Thread.Worker.{
  Worker, waiting, handling, Steps, wake, pooled, pooled-queued, thread_event_wait-success,
}

abbrev no_nodes : ℕ → Node
no_nodes a = record { prev = 0; next = 0; datum = 0 }

abbrev nodes : ℕ → Node
nodes a =
    if a == 64
    then record { prev = 0; next = 128; datum = 700 }
    else record { prev = 64; next = 0; datum = 800 }

abbrev pool_with : Control → ThreadPool
pool_with idle = record {
  idle = idle;
  threads = λ a. record { id = 33; tmp_flag = false; datum = 0 };
}

abbrev two : Control
two = record { head = 128; tail = 64; cnt = 2; nodes = nodes }

two-Holds : Holds two ((64, 700) ∷ (128, 800) ∷ [])
two-Holds = record {
  links = (
    refl,
    ground arith,
    (ground arith, tt),
    refl,
    refl,
    (refl, ground arith, tt, refl, refl, (refl, refl)),
  );
  number = refl;
}

abbrev none_idle : Control
none_idle = record { head = 0; tail = 0; cnt = 0; nodes = no_nodes }

thread_pool_init-queues_test :
    Returns
      (λ r. (r.0 ≡ success) × Holds r.1.idle ((64, 700) ∷ (128, 800) ∷ []))
      (thread_pool_init success 77 2
        (created 700 700 ∷ created 800 800 ∷ [])
        (64 ∷ 128 ∷ [])
        (pool_with none_idle))
thread_pool_init-queues_test =
    thread_pool_init-queues 77 (64, 700) ((128, 800) ∷ []) (pool_with none_idle)
      (ground arith, tt, (ground arith, (ground arith, tt), tt))

thread_pool_alloc-oldest_example :
    Returns
      (λ (id, calls, last).
        (id ≡ 33)
        × (calls ≡ wake id ∷ [])
        × Holds last.idle ((128, 800) ∷ [])
        × ((last.threads 700).datum ≡ 5))
      (thread_pool_alloc 1 (λ id. delivered) [] 5 9 (pool_with two))
thread_pool_alloc-oldest_example =
    thread_pool_alloc-oldest 0 (λ id. delivered) [] 5 9 (pool_with two) (64, 700) (128, 800) []
      two-Holds (ground arith) refl

thread_pool_alloc-short_test :
    ((x : Item)
      → Holds none_idle (x ∷ [])
      → thread_pool_alloc 1 (λ id. delivered) [] 5 9 (pool_with none_idle) ≡ fault)
    × (Holds none_idle []
        → thread_pool_alloc 1 (λ id. delivered) (not_created ∷ []) 5 9 (pool_with none_idle)
          ≡ ok (no_thread, [], pool_with none_idle))
thread_pool_alloc-short_test =
    thread_pool_alloc-short 0 (λ id. delivered) [] 5 9 (pool_with none_idle)

abbrev at_work : Worker
at_work = record {
  phase = handling;
  queued = 0;
  tmp_flag = true;
  remembered = true;
  pending = false;
}

pooled-queued_test :
    Steps pooled
      (record { phase = waiting; queued = 3; tmp_flag = false; remembered = true; pending = false })
pooled-queued_test = pooled-queued 2

thread_event_wait-success_test :
    IfOk (λ r. r ≡ success) (thread_event_wait (other_signal ∷ sigcont ∷ []))
thread_event_wait-success_test = thread_event_wait-success (other_signal ∷ sigcont ∷ [])
