-- ===== src/Thread/Worker.antt =====
-- The life of a thread of src/thread.c as steps: `thread_trigger`, `thread_reset`, and what
-- `thread_pool_alloc` and the listener do to it
use lidas.Base.{
  ℕ, zero, suc, ◌+◌, ◌≡◌, ◌≢◌, refl, Bool, true, false, List, [], ◌∷◌, arith, success, IfOk,
  IfOk-ok, exited-ne_ok, out_of_fuel-ne_ok,
}
use lidas.Thread.{Signal, sigcont, sigint, other_signal, sigwait_failed, thread_event_wait}

-- waiting in `sigwait`, in `func_redirect`, or at its end
pub data Phase : Type 0 where
  waiting : Phase
  handling : Phase
  gone : Phase

-- `queued` counts how often the thread stands in the queue of idle threads; `remembered` says whether
-- the `thread_id` of a timer is that of the thread, and `pending` whether SIGCONT waits for it.
pub record Worker : Type 0 where
  pub phase : Phase
  pub queued : ℕ
  pub tmp_flag : Bool
  pub remembered : Bool
  pub pending : Bool

-- `take`: `thread_pool_alloc` takes it from the queue, sends SIGCONT, and the listener writes its
-- id to the timer of the connection. `start`: `tmp_thread_port` has made it for an event, whose
-- timer gets its id; no SIGCONT is sent to it. `remind`: the listener sends SIGCONT to the thread
-- that a timer remembers. `wake`: `sigwait` takes SIGCONT. `requeue` and `quit`: the end of
-- `func_redirect`. `interrupt`: SIGINT. `reset`: SIGHUP, from which `thread_reset` jumps to the
-- start of the wait. `absorb` and `cancel`: `thread_event_wait` takes SIGCONT or SIGINT while the
-- thread handles an event. `drop`: `thread_pool_alloc` takes a thread that is gone from the queue,
-- and goes on to the next one. `forget`: the last timer with its id is given up, or gets that of
-- another thread.
pub data Step : Worker → Worker → Type 0 where
  take :
      {p : Phase} {n : ℕ} {t m k : Bool}
      → p ≢ gone
      → Step
          (record { phase = p; queued = suc n; tmp_flag = t; remembered = m; pending = k })
          (record { phase = p; queued = n; tmp_flag = t; remembered = true; pending = true })
  start :
      {n : ℕ} {m k : Bool}
      → Step
          (record { phase = waiting; queued = n; tmp_flag = true; remembered = m; pending = k })
          (record { phase = waiting; queued = n; tmp_flag = true; remembered = true; pending = k })
  remind :
      {p : Phase} {n : ℕ} {t k : Bool}
      → p ≢ gone
      → Step
          (record { phase = p; queued = n; tmp_flag = t; remembered = true; pending = k })
          (record { phase = p; queued = n; tmp_flag = t; remembered = true; pending = true })
  wake :
      {n : ℕ} {t m : Bool}
      → Step
          (record { phase = waiting; queued = n; tmp_flag = t; remembered = m; pending = true })
          (record { phase = handling; queued = n; tmp_flag = t; remembered = m; pending = false })
  requeue :
      {n : ℕ} {m k : Bool}
      → Step
          (record { phase = handling; queued = n; tmp_flag = false; remembered = m; pending = k })
          (record {
            phase = waiting;
            queued = n + 1;
            tmp_flag = false;
            remembered = m;
            pending = k;
          })
  quit :
      {n : ℕ} {m k : Bool}
      → Step
          (record { phase = handling; queued = n; tmp_flag = true; remembered = m; pending = k })
          (record { phase = gone; queued = n; tmp_flag = true; remembered = m; pending = k })
  interrupt :
      {n : ℕ} {t m k : Bool}
      → Step
          (record { phase = waiting; queued = n; tmp_flag = t; remembered = m; pending = k })
          (record { phase = gone; queued = n; tmp_flag = t; remembered = m; pending = k })
  reset :
      {n : ℕ} {t m k : Bool}
      → Step
          (record { phase = handling; queued = n; tmp_flag = t; remembered = m; pending = k })
          (record { phase = waiting; queued = n; tmp_flag = t; remembered = m; pending = k })
  absorb :
      {n : ℕ} {t m : Bool}
      → Step
          (record { phase = handling; queued = n; tmp_flag = t; remembered = m; pending = true })
          (record { phase = handling; queued = n; tmp_flag = t; remembered = m; pending = false })
  cancel :
      {n : ℕ} {t m k : Bool}
      → Step
          (record { phase = handling; queued = n; tmp_flag = t; remembered = m; pending = k })
          (record { phase = gone; queued = n; tmp_flag = t; remembered = m; pending = k })
  drop :
      {n : ℕ} {t m k : Bool}
      → Step
          (record { phase = gone; queued = suc n; tmp_flag = t; remembered = m; pending = k })
          (record { phase = gone; queued = n; tmp_flag = t; remembered = m; pending = k })
  forget :
      {p : Phase} {n : ℕ} {t m k : Bool}
      → Step
          (record { phase = p; queued = n; tmp_flag = t; remembered = m; pending = k })
          (record { phase = p; queued = n; tmp_flag = t; remembered = false; pending = k })

pub data Steps : Worker → Worker → Type 0 where
  done : {w : Worker} → Steps w w
  then_ : {u v w : Worker} → Steps u v → Step v w → Steps u w

-- as `thread_pool_init` and `tmp_thread_port` start a thread
abbrev pub pooled : Worker
pooled = record {
  phase = waiting;
  queued = 1;
  tmp_flag = false;
  remembered = false;
  pending = false;
}

abbrev pub temporary : Worker
temporary = record {
  phase = waiting;
  queued = 0;
  tmp_flag = true;
  remembered = false;
  pending = false;
}

abbrev IsTemporary : Worker → Type 0
IsTemporary w = (w.tmp_flag ≡ true) × (w.queued ≡ 0)

waiting-ne_gone : waiting ≢ gone
waiting-ne_gone e = cc

-- A thread of the pool can stand in the queue of idle threads any number of times: once it has handled
-- an event, each SIGCONT that the listener sends to it for the timer that remembers it makes it handle
-- its old event and queue itself again.
pub pooled-queued :
    (n : ℕ)
    → Steps pooled (record {
      phase = waiting;
      queued = 1 + n;
      tmp_flag = false;
      remembered = true;
      pending = false;
    })
pooled-queued zero = then_ (then_ (then_ done (take waiting-ne_gone)) wake) requeue
pooled-queued (suc n) =
    let once_more : 1 + suc n ≡ 1 + n + 1 = omega arith in
    rw once_more (then_ (then_ (then_ (pooled-queued n) (remind waiting-ne_gone)) wake) requeue)

-- `thread_event_wait` returns 0 if it returns at all, so that what its callers do at another value
-- is never done.
pub thread_event_wait-success :
    (signals : List Signal) → IfOk (λ r. r ≡ success) (thread_event_wait signals)
unfolding thread_event_wait
thread_event_wait-success [] = record { holds = λ a e. absurd (out_of_fuel-ne_ok e) }
thread_event_wait-success (sigcont ∷ rest) = IfOk-ok refl
thread_event_wait-success (sigint ∷ rest) = record { holds = λ a e. absurd (exited-ne_ok e) }
thread_event_wait-success (other_signal ∷ rest) = thread_event_wait-success rest
thread_event_wait-success (sigwait_failed ∷ rest) = record {
  holds = λ a e. absurd (exited-ne_ok e);
}
