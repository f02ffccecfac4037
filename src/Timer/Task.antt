-- ===== src/Timer/Task.antt =====
-- Which connections `timer_task` (src/timer.c) ends, and whether it returns
use lidas.Base.{
  ℕ, zero, suc, ◌-◌, ◌≤◌, ◌<◌, ◌≡◌, refl, sym, ap, ◌∙◌, ◌≢◌, ◌⊎◌, inl, inr, Bool, true, false, ◌&&◌,
  List, [], ◌∷◌, ◌++◌, arith, ltb, ◌==◌, lt→ltb, ne→==, Bool-cases, length, Run, ok, Returns,
  returns, Returns-inv, bind-ok, IfOk, IfOk-ok, IfOk-fault, IfOk-bind, out_of_fuel-ne_ok,
}
use lidas.Queue.{Queue}
use lidas.Queue.Spec
use lidas.Queue.Valid.{IsValid, queue_out-empty}
use lidas.Queue.Refine.{
  contents, length-contents, count-lt, not-IsEdge, push_fits, queue_in_refines, queue_out_refines,
}
use lidas.Memory.Cache.{mem_cache_free}
use lidas.Log.{buf_log_destroy}
use lidas.Timer.{release, Timer, State, SystemCall, LogResults, timer_cleaner, clean_up, timer_task}

-- no return in any number of rounds
abbrev pub NeverReturns : (ℕ → Run (List SystemCall × State)) → Type 0
NeverReturns f = (n : ℕ) (r : List SystemCall × State) → f n ≢ ok r

-- `timer_task` on an empty queue calls itself for ever.
pub timer_task-empty :
    (r : LogResults) (keep_alive : ℕ) (stopped : Bool) (now : ℕ) (s : State)
    → s.queue.tail ≡ s.queue.head
    → NeverReturns (λ n. timer_task n r keep_alive stopped now s)
unfolding timer_task
timer_task-empty r k stopped now s h zero x e = out_of_fuel-ne_ok e
timer_task-empty r k stopped now s h (suc n) x e =
    timer_task-empty r k stopped now s h n x (rw (queue_out-empty s.queue h) at e)

-- A connection at the front of the queue whose time is not over goes to its back, and `timer_task`
-- returns without a call.
pub timer_task-keeps :
    (n : ℕ) (r : LogResults) (keep_alive : ℕ) (stopped : Bool) (now p : ℕ) (rest : List ℕ)
    (s : State)
    → IsValid s.queue
    → contents s.queue ≡ p ∷ rest
    → p ≢ 0
    → now - (s.timers p).time ≤ keep_alive
    → Returns
        (λ (calls, s').
          (calls ≡ [])
          × IsValid s'.queue
          × (contents s'.queue ≡ rest ++ (p ∷ []))
          × (s'.timer_data_lst ≡ s.timer_data_lst)
          × (s'.cache ≡ s.cache)
          × (s'.timers ≡ s.timers))
        (timer_task (suc n) r keep_alive stopped now s)
unfolding timer_task
timer_task-keeps n r k stopped now p rest s v c nonnull young =
    let (q1, e1, (v1, c1, m1)) = Returns-inv (queue_out_refines s.queue v) in
    let front : q1.0 ≡ p = ap (λ x. x.0) (c1 ∙ ap Spec.pop c) in
    let left : contents q1.1 ≡ rest = ap (λ x. x.1) (c1 ∙ ap Spec.pop c) in
    let room : length (contents q1.1) < q1.1.max - 1 =
      omega (arith, m1, ap length left, ap length c, length-contents s.queue, count-lt s.queue v) in
    let (q2, e2, (v2, c2, m2)) =
      Returns-inv (queue_in_refines q1.1 v1 p (not-IsEdge q1.1 v1 room)) in
    let stored = ap (λ x. x.1) (c2 ∙ push_fits (q1.1.max - 1) (contents q1.1) p room) in
    let behind = stored ∙ ap (λ l. l ++ (p ∷ [])) left in
    let alive : ltb k (now - (s.timers p).time) ≡ false = ground (arith, young) in
    rw (e1, front, ne→== _ _ nonnull, alive, e2) (returns (refl, v2, behind, refl, refl, refl))

-- the time of every connection in the list is over
abbrev AreOver : (keep_alive now : ℕ) → (ℕ → Timer) → List ℕ → Type 0
AreOver k now timers [] = Unit
AreOver k now timers (p ∷ ps) = (k < now - (timers p).time) × AreOver k now timers ps

cleaner-keeps :
    (r : LogResults) (fd : ℕ) (s : State)
    → IfOk (λ x. (x.1.queue ≡ s.queue) × (x.1.timers ≡ s.timers)) (timer_cleaner r fd s)
unfolding timer_cleaner
cleaner-keeps r fd s =
    let p = s.timer_data_lst fd in
    let t = s.timers p in
    elim (Bool-cases (p == 0)) [
      | inl none_there ↦ rw none_there IfOk-fault
      | inr there ↦ rw there (
          IfOk-bind (buf_log_destroy r.locked r.writes t.log_pool) _ (λ logged.
            IfOk-bind (release t.pool) _
              (λ freed. IfOk-bind (mem_cache_free p s.cache) _ (λ cache. IfOk-ok (refl, refl)))))
    ]

pub and_false : (b : Bool) → (b && false) ≡ false
and_false true = refl
and_false false = refl

clean_up-ok :
    (again : State → Run (List SystemCall × State)) (r : LogResults) (fd : ℕ) (s : State)
    (x : List SystemCall × State)
    → clean_up again r fd false s ≡ ok x
    → (s' : State) × (y : List SystemCall × State) × (again s' ≡ ok y)
      × (s'.queue ≡ s.queue)
      × (s'.timers ≡ s.timers)
clean_up-ok again r fd s x e =
    let (c, e1, e2) = bind-ok (timer_cleaner r fd s) _ x e in
    let running : (c.1.queue.head == c.1.queue.tail) && false ≡ false = and_false _ in
    let (l, e3, e4) = bind-ok (again c.1) _ x (rw running at e2) in
    let kept = (cleaner-keeps r fd s).holds c e1 in (c.1, l, e3, kept.0, kept.1)

List-cases : (xs : List ℕ) → (xs ≡ []) ⊎ ((x : ℕ) × (rest : List ℕ) × (xs ≡ x ∷ rest))
List-cases [] = inl refl
List-cases (x ∷ xs) = inr (x, xs, refl)

nil-meets : (q : Queue) → IsValid q → contents q ≡ [] → q.tail ≡ q.head
nil-meets q v e = ground (arith, length-contents q, ap length e, v.head_in, v.tail_in)

-- If the time of every queued connection is over, `timer_task` does not return.
pub timer_task-all_over :
    (r : LogResults) (keep_alive now : ℕ) (s : State)
    → IsValid s.queue
    → AreOver keep_alive now s.timers (contents s.queue)
    → NeverReturns (λ n. timer_task n r keep_alive false now s)
unfolding timer_task
timer_task-all_over r k now s v over zero x e = out_of_fuel-ne_ok e
timer_task-all_over r k now s v over (suc n) x e =
    let (q1, e1, (v1, c1, m1)) = Returns-inv (queue_out_refines s.queue v) in
    elim (List-cases (contents s.queue)) [
      | inl none_left ↦ timer_task-empty r k false now s (nil-meets s.queue v none_left) (suc n) x e
      | inr (p, rest, c) ↦
          let front : q1.0 ≡ p = ap (λ y. y.0) (c1 ∙ ap Spec.pop c) in
          let left : contents q1.1 ≡ rest = ap (λ y. y.1) (c1 ∙ ap Spec.pop c) in
          let old = rw c at over in
          let ended : ltb k (now - (s.timers p).time) ≡ true = lt→ltb _ _ old.0 in
          let later = rw (sym left) at old.1 in
          let s1 = record s { queue = q1.1 } in
          let e' = rw (e1, front) at e in
          elim (Bool-cases (p == 0)) [
            | inl null ↦ timer_task-all_over r k now s1 v1 later n x (rw null at e')
            | inr real ↦
                let again = timer_task n r k false now in
                let (s2, y, e3, same, timers) =
                  clean_up-ok again r (s.timers p).fd s1 x (rw (real, ended) at e') in
                timer_task-all_over r k now s2 (rw same v1) (rw (same, timers) later) n y e3
          ]
    ]
