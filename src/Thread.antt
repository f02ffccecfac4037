-- ===== src/Thread.antt =====
-- src/thread.c: the threads that handle requests. An idle thread stands in the linked queue of
-- src/queue_chain.c by the address of its `struct thread_data_t`. What the system's calls return is
-- an argument.
pub mod Pool
pub mod Worker
pub mod Handler
mod Tests
use lidas.Base.{
  ℕ, zero, suc, ◌-◌, ◌^◌, Bool, true, false, List, [], ◌∷◌, ◌==◌, if◌then◌else◌, Run, ok, exited,
  out_of_fuel, ◌>>=◌, ◌>>◌, Status, success, failure,
}
use lidas.QueueChain.{Control, queue_chain_in, queue_chain_out}

-- `struct thread_data_t`, less its pool; `datum` is the address of the event to handle
pub record ThreadData : Type 0 where
  pub id : ℕ
  pub tmp_flag : Bool
  pub datum : ℕ

pub record ThreadPool : Type 0 where
  pub idle : Control
  pub threads : ℕ → ThreadData

abbrev pub put_thread : (ℕ → ThreadData) → ℕ → ThreadData → ℕ → ThreadData
put_thread threads a t b = if a == b then t else threads b

-- what `pthread_create` does: a thread with its id and the address of its data, or an error
pub data Created : Type 0 where
  created : (id at : ℕ) → Created
  again : Created
  not_created : Created

-- what `pthread_kill` returns for a thread
pub data Killed : Type 0 where
  delivered : Killed
  no_such_thread : Killed
  not_delivered : Killed

-- The loop of `thread_pool_init` for `cnt` threads; `nodes` gives the addresses of the new nodes.
pub create_threads :
    (cnt : ℕ) → List Created → (nodes : List ℕ) → ThreadPool → Run (Status × ThreadPool)
create_threads zero results nodes pool = ok (success, pool)
create_threads (suc cnt) [] nodes pool = out_of_fuel
create_threads (suc cnt) (again ∷ rs) nodes pool = ok (failure, pool)
create_threads (suc cnt) (not_created ∷ rs) nodes pool = ok (failure, pool)
create_threads (suc cnt) (created id at ∷ rs) [] pool = out_of_fuel
create_threads (suc cnt) (created id at ∷ rs) (node ∷ nodes) pool =
    queue_chain_in node at pool.idle >>= (λ idle. create_threads cnt rs nodes (record {
      idle = idle;
      threads = put_thread pool.threads at (record { id = id; tmp_flag = false; datum = 0 });
    }))

-- `thread_pool_init`: `garbage` is what `malloc` left in `cnt` of the queue, which it does not set.
pub thread_pool_init :
    (mutex : Status) (garbage cnt : ℕ)
    → List Created
    → (nodes : List ℕ) → ThreadPool
    → Run (Status × ThreadPool)
unfolding create_threads
thread_pool_init failure garbage cnt results nodes pool = ok (failure, pool)
thread_pool_init success garbage cnt results nodes pool =
    create_threads cnt results nodes
      (record pool { idle = record pool.idle { head = 0; tail = 0; cnt = garbage } })

-- what `thread_pool_alloc` asks of the system
pub data Action : Type 0 where
  wake : ℕ → Action
  free : ℕ → Action
  err_log : ℕ → Action
  error_post : (fd status : ℕ) → Action

-- the `pthread_t` that -1 becomes
abbrev pub no_thread : ℕ
no_thread = 2 ^ 64 - 1

-- `thread_pool_alloc` for the event at `q` of the descriptor `fd`: a round for each way back to its
-- start, be it by `goto` or by the `longjmp` of `tmp_thread_port`. A `pthread_t` is never below 0.
pub thread_pool_alloc :
    (rounds : ℕ)
    → (kill : ℕ → Killed) → List Created
    → (q fd : ℕ) → ThreadPool
    → Run (ℕ × List Action × ThreadPool)
thread_pool_alloc zero kill results q fd pool = out_of_fuel
thread_pool_alloc (suc n) kill results q fd pool =
    let retry = thread_pool_alloc n kill in
    queue_chain_out pool.idle >>= (λ (d, node, idle).
      let t : ThreadData = record (pool.threads d) { datum = q } in
      let pool' : ThreadPool = record { idle = idle; threads = put_thread pool.threads d t } in
      if d == 0
      then elim results [
        | [] ↦ out_of_fuel
        | r ∷ rs ↦ elim r [
          | created id at ↦
              let new : ThreadData = record { id = id; tmp_flag = true; datum = q } in
              ok (id, [], record { idle = idle; threads = put_thread pool.threads at new })
          | again ↦ retry rs q fd (record pool { idle = idle })
          | not_created ↦ ok (no_thread, [], record pool { idle = idle })
        ]
      ]
      else elim (kill t.id) [
        | delivered ↦ ok (t.id, wake t.id ∷ [], pool')
        | no_such_thread ↦
            retry results q fd pool' >>= (λ (id, calls, last). ok (id, free d ∷ calls, last))
        | not_delivered ↦ ok (no_thread, err_log fd ∷ error_post fd 503 ∷ [], pool')
      ])

-- what `sigwait` returns
pub data Signal : Type 0 where
  sigcont : Signal
  sigint : Signal
  other_signal : Signal
  sigwait_failed : Signal

-- The loop of `thread_event_wait`. `pthread_exit` ends the thread.
pub thread_event_wait : List Signal → Run Status
thread_event_wait [] = out_of_fuel
thread_event_wait (sigcont ∷ rest) = ok success
thread_event_wait (sigint ∷ rest) = exited
thread_event_wait (other_signal ∷ rest) = thread_event_wait rest
thread_event_wait (sigwait_failed ∷ rest) = exited

-- the results of `pthread_key_create`
data KeyResult : Type 0 where
  key_made : KeyResult
  key_again : KeyResult
  key_error : KeyResult

-- `thread_key_init`
unfoldable thread_key_init : List KeyResult → Run Status
thread_key_init [] = out_of_fuel
thread_key_init (key_made ∷ rest) = ok success
thread_key_init (key_again ∷ rest) = thread_key_init rest
thread_key_init (key_error ∷ rest) = exited
