-- ===== src/Thread/Pool.antt =====
-- Which thread src/thread.c gives to an event
use lidas.Base.{
  ℕ, suc, ◌≡◌, refl, sym, ap, ◌∙◌, ◌≢◌, List, [], ◌∷◌, ◌++◌, arith, ne→==, length, append_assoc,
  append-nil, ok, fault, success, Returns, returns, Returns-bind, Returns-map,
}
use lidas.QueueChain.{Control}
use lidas.QueueChain.Links.{Item, NotAt, Holds}
use lidas.QueueChain.Enqueue.{queue_chain_in-first, queue_chain_in-appends}
use lidas.QueueChain.Dequeue.{queue_chain_out-oldest, queue_chain_out-last}
use lidas.Thread.{
  ThreadData, ThreadPool, put_thread, Created, created, not_created, create_threads,
  thread_pool_init, Killed, delivered, wake, no_thread, thread_pool_alloc,
}

-- the results of `pthread_create` and of the allocations for threads with the data at `x.1` and the
-- node at `x.0`
abbrev pub started : List Item → List Created
started [] = []
started (x ∷ xs) = created x.1 x.1 ∷ started xs

abbrev nodes_of : List Item → List ℕ
nodes_of [] = []
nodes_of (x ∷ xs) = x.0 ∷ nodes_of xs

-- The nodes are new, distinct and not NULL.
abbrev AreNew : List Item → List Item → Type 0
AreNew ys [] = Unit
AreNew ys (x ∷ xs) = (x.0 ≢ 0) × NotAt x.0 ys × AreNew (ys ++ (x ∷ [])) xs

create_threads-queues :
    (xs ys : List Item) (pool : ThreadPool)
    → Holds pool.idle ys
    → AreNew ys xs
    → Returns
        (λ r. (r.0 ≡ success) × Holds r.1.idle (ys ++ xs))
        (create_threads (length xs) (started xs) (nodes_of xs) pool)
unfolding create_threads
create_threads-queues [] ys pool h new = returns (refl, rw (append-nil ys) h)
create_threads-queues (x ∷ xs) ys pool h new =
    Returns-bind (queue_chain_in-appends pool.idle ys x.0 x.1 h new.0 new.1) (λ idle held.
      Returns-map (create_threads-queues xs (ys ++ (x ∷ [])) _ held new.2)
        (λ r e. (e.0, rw (append_assoc ys (x ∷ []) xs) at e.1)))

-- If every thread can be created, `thread_pool_init` leaves all of them idle, in the order of their
-- creation, whatever stood in the memory of the queue.
pub thread_pool_init-queues :
    (garbage : ℕ) (x : Item) (xs : List Item) (pool : ThreadPool)
    → AreNew [] (x ∷ xs)
    → Returns
        (λ r. (r.0 ≡ success) × Holds r.1.idle (x ∷ xs))
        (thread_pool_init success garbage
          (length (x ∷ xs))
          (started (x ∷ xs))
          (nodes_of (x ∷ xs))
          pool)
unfolding thread_pool_init create_threads
thread_pool_init-queues garbage x xs pool new =
    let idle : Control = record pool.idle { head = 0; tail = 0; cnt = garbage } in
    Returns-bind (queue_chain_in-first idle x.0 x.1 refl new.0)
      (λ idle held. create_threads-queues xs (x ∷ []) _ held new.2)

put_thread_self : (threads : ℕ → ThreadData) (a : ℕ) (t : ThreadData) → put_thread threads a t a ≡ t
put_thread_self threads a t = ground arith

-- `thread_pool_alloc` with at least two idle threads takes the one that is idle for the longest time,
-- gives the event to it and wakes it.
pub thread_pool_alloc-oldest :
    (n : ℕ) (kill : ℕ → Killed) (results : List Created) (q fd : ℕ) (pool : ThreadPool) (x y : Item)
    (rest : List Item)
    → Holds pool.idle (x ∷ y ∷ rest)
    → x.1 ≢ 0
    → kill (pool.threads x.1).id ≡ delivered
    → Returns
        (λ (id, calls, last).
          (id ≡ (pool.threads x.1).id)
          × (calls ≡ wake id ∷ [])
          × Holds last.idle (y ∷ rest)
          × ((last.threads x.1).datum ≡ q))
        (thread_pool_alloc (suc n) kill results q fd pool)
unfolding thread_pool_alloc
thread_pool_alloc-oldest n kill results q fd pool x y rest h real alive =
    Returns-bind (queue_chain_out-oldest pool.idle x y rest h)
      (λ (d, node, idle) (datum, freed, held).
        let real' : d ≢ 0 = λ e. real (sym datum ∙ e) in
        let alive' : kill (pool.threads d).id ≡ delivered = rw datum alive in
        rw (← datum, ne→== _ _ real', alive')
          (returns (refl, refl, held, ap (λ t. t.datum) (put_thread_self pool.threads d _))))

-- With one idle thread left, `thread_pool_alloc` writes through NULL. With none, it returns a new
-- thread, or, if none can be created, -1 as a `pthread_t` without a word to the client or the log.
pub thread_pool_alloc-short :
    (n : ℕ) (kill : ℕ → Killed) (results : List Created) (q fd : ℕ) (pool : ThreadPool)
    → ((x : Item)
        → Holds pool.idle (x ∷ [])
        → thread_pool_alloc (suc n) kill results q fd pool ≡ fault)
      × (Holds pool.idle []
          → thread_pool_alloc (suc n) kill (not_created ∷ results) q fd pool
            ≡ ok (no_thread, [], pool))
unfolding thread_pool_alloc
thread_pool_alloc-short n kill results q fd pool =
    let last = queue_chain_out-last pool.idle in
    ((λ x h. rw (last.0 x h) refl), (λ h. rw (last.1 h) refl))
