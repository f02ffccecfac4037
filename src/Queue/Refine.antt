-- ===== src/Queue/Refine.antt =====
-- A valid ring is the first-in-first-out queue of the pointers between `tail` and `head`, until the
-- one state that `Q_IS_FULL` does not see (`Overrun`).
use lidas.Base.{
  ℕ, zero, suc, ◌+◌, ◌-◌, ◌<◌, ◌≡◌, refl, ap, ap₂, ◌∙◌, ◌≢◌, inl, inr, List, [], ◌∷◌, ◌++◌, arith,
  ltb, ◌==◌, if◌then◌else◌, ==_iff, Bool-cases, length, get_or, set, get_or-set_self, get_or-set_ne,
  Run, ok, ◌>>=◌, success, Returns, returns, Returns-inv,
}
use lidas.Queue.{Queue, queue_in, queue_out, advance}
use lidas.Queue.Spec
use lidas.Queue.Spec.{Fifo, Op, put, get, Reply, stored, taken}
use lidas.Queue.Valid.{
  IsValid, stored_at, queue_in-full, queue_in-ok, queue_out-ok, queue_out-empty, taken_from,
  taken_from-IsValid, stored_at-IsValid, advance-lt,
}

module _ (slots : List ℕ) (max : ℕ) where
  -- the `n` pointers from index `i` on
  abbrev pub window : ℕ → ℕ → Fifo
  window i zero = []
  window i (suc n) = get_or slots i 0 ∷ window (advance max i) n

  length-window : (i n : ℕ) → length (window i n) ≡ n
  length-window i zero = refl
  length-window i (suc n) = ap suc (length-window (advance max i) n)

  window-ne_zero :
      (i n : ℕ) → n ≢ 0 → window i n ≡ get_or slots i 0 ∷ window (advance max i) (n - 1)
  window-ne_zero i zero h = absurd (h refl)
  window-ne_zero i (suc n) h = ap (λ k. window i (suc k)) (omega arith)

-- the index `n` places after `i`
abbrev ahead : ℕ → ℕ → ℕ → ℕ
ahead max i n = if ltb (i + n) max then i + n else i + n - max

-- Storing just behind a window extends it by that pointer.
window-set :
    (slots : List ℕ) (max d n i at : ℕ)
    → length slots ≡ max
    → i < max
    → n < max
    → at ≡ ahead max i n
    → window (set slots at d) max i (suc n) ≡ window slots max i n ++ (d ∷ [])
window-set slots max d zero i at room hi hn e =
    let here : at ≡ i = ground arith in rw (here, get_or-set_self slots i d 0 (omega arith))
window-set slots max d (suc n) i at room hi hn e =
    ap₂ ◌∷◌ (get_or-set_ne slots at i d 0 (ground arith)) (
      window-set slots max d n (advance max i) at room (advance-lt max i hi) (omega arith)
        (ground arith))

-- how many pointers lie between `tail` and `head`
abbrev pub count : Queue → ℕ
count q = if ltb q.head q.tail then q.head + q.max - q.tail else q.head - q.tail

abbrev pub contents : Queue → Fifo
contents q = window q.slots q.max q.tail (count q)

pub length-contents : (q : Queue) → length (contents q) ≡ count q
length-contents q = length-window q.slots q.max q.tail (count q)

-- One more pointer would bring `head` onto `tail`, and `head + 1` is not `tail`.
abbrev pub IsEdge : Queue → Type 0
IsEdge q = (q.head + 1 ≡ q.max) × (q.tail ≡ 0)

module _ (q : Queue) (v : IsValid q) where
  pub count-lt : count q < q.max
  count-lt = ground (arith, v.head_in, v.tail_in)

  stored_at-contents :
      (d : ℕ) → q.head + 1 ≢ q.tail → ¬ IsEdge q → contents (stored_at q d) ≡ contents q ++ (d ∷ [])
  stored_at-contents d h edge =
      let more : count (stored_at q d) ≡ suc (count q) = ground (arith, v.head_in, v.tail_in) in
      rw more (
        window-set q.slots q.max d (count q) q.tail q.head v.room v.tail_in count-lt
          (ground (arith, v.head_in, v.tail_in)))

  -- `queue_in` on a valid ring, in any state but the one that `Q_IS_FULL` misses: it does not fault,
  -- keeps the ring valid, and is `push` on the queue of capacity `max - 1`: it refuses a full ring
  -- and leaves it, and appends the pointer otherwise.
  pub queue_in_refines :
      (d : ℕ)
      → ¬ IsEdge q
      → Returns
          (λ r.
            IsValid r.1
            × ((r.0, contents r.1) ≡ Spec.push (q.max - 1) (contents q) d)
            × (r.1.max ≡ q.max))
          (queue_in q d)
  queue_in_refines d edge = elim (Bool-cases (q.head + 1 == q.tail)) [
    | inl full ↦
        let f = (==_iff _ _).0 full in
        rw (queue_in-full q d f)
          (returns (v, ground (arith, length-contents q, v.head_in, v.tail_in), refl))
    | inr room ↦
        let n : q.head + 1 ≢ q.tail = ground arith in
        rw (queue_in-ok q v d n) (
          returns (
            stored_at-IsValid q v d,
            ground (arith, stored_at-contents d n edge, length-contents q, v.head_in, v.tail_in),
            refl,
          ))
  ]

  count-taken : q.tail ≢ q.head → count q ≡ suc (count (taken_from q))
  count-taken h = ground (arith, v.head_in, v.tail_in)

  -- `queue_out` on any valid ring: it does not fault, keeps the ring valid, and is `pop`: NULL on
  -- an empty ring, which stays as it is, and else the oldest pointer, which leaves the ring.
  pub queue_out_refines :
      Returns
        (λ r. IsValid r.1 × ((r.0, contents r.1) ≡ Spec.pop (contents q)) × (r.1.max ≡ q.max))
        (queue_out q)
  queue_out_refines = elim (Bool-cases (q.tail == q.head)) [
    | inl empty ↦
        let e = (==_iff _ _).0 empty in rw (queue_out-empty q e) (returns (v, ground arith, refl))
    | inr some_left ↦
        let n : q.tail ≢ q.head = ground arith in
        rw (queue_out-ok q v n) (
          returns (
            taken_from-IsValid q v,
            ground (
              arith,
              window-ne_zero q.slots q.max q.tail (count q),
              count-taken n,
              v.head_in,
              v.tail_in,
            ),
            refl,
          ))
  ]

-- The client's calls in order, with what each returns.
unfoldable pub run : Queue → List Op → Run (List Reply)
run q [] = ok []
run q (put d ∷ ops) = do (s, q') ← queue_in q d; rest ← run q' ops; ok (stored s ∷ rest)
run q (get ∷ ops) = do (d, q') ← queue_out q; rest ← run q' ops; ok (taken d ∷ rest)

pub spec_run : ℕ → Fifo → List Op → List Reply
spec_run cap xs [] = []
spec_run cap xs (put d ∷ ops) = let (s, ys) = Spec.push cap xs d in stored s ∷ spec_run cap ys ops
spec_run cap xs (get ∷ ops) = let (d, ys) = Spec.pop xs in taken d ∷ spec_run cap ys ops

-- No `put` of the script finds `cap` pointers queued.
abbrev Fits : ℕ → Fifo → List Op → Type 0
Fits cap xs [] = Unit
Fits cap xs (put d ∷ ops) = (length xs < cap) × Fits cap (xs ++ (d ∷ [])) ops
Fits cap xs (get ∷ ops) = Fits cap (Spec.pop xs).1 ops

pub not-IsEdge : (q : Queue) → IsValid q → length (contents q) < q.max - 1 → ¬ IsEdge q
not-IsEdge q v h e = ground (arith, length-contents q, v.head_in, v.tail_in, e.0, e.1)

pub push_fits :
    (cap : ℕ) (xs : Fifo) (d : ℕ) → length xs < cap → Spec.push cap xs d ≡ (success, xs ++ (d ∷ []))
push_fits cap xs d h = ground arith

run_from :
    (ops : List Op) (q : Queue) (cap : ℕ) (xs : Fifo)
    → IsValid q
    → q.max - 1 ≡ cap
    → contents q ≡ xs
    → Fits cap xs ops
    → run q ops ≡ ok (spec_run cap xs ops)
unfolding run spec_run
run_from [] q cap xs v m c h = refl
run_from (put d ∷ ops) q cap xs v m c h =
    let (r, e, w) = Returns-inv (queue_in_refines q v d (not-IsEdge q v (rw (c, m) h.0))) in
    let same : Spec.push (q.max - 1) (contents q) d ≡ (success, xs ++ (d ∷ [])) =
      rw (m, c) (push_fits cap xs d h.0) in
    let ih =
      run_from ops r.1 cap (xs ++ (d ∷ [])) w.0 (rw w.2 m) (ap (λ p. p.1) (w.1 ∙ same)) h.1 in
    rw (e, ih, push_fits cap xs d h.0, ap (λ p. p.0) (w.1 ∙ same))
run_from (get ∷ ops) q cap xs v m c h =
    let (r, e, w) = Returns-inv (queue_out_refines q v) in
    let same : (r.0, contents r.1) ≡ Spec.pop xs = rw (← c) w.1 in
    let ih = run_from ops r.1 cap (Spec.pop xs).1 w.0 (rw w.2 m) (ap (λ p. p.1) same) h in
    rw (e, ih, ap (λ p. p.0) same)

-- On a valid ring every script of calls that never queues more than `max - 1` pointers at once gets,
-- without a fault, exactly the replies of the first-in-first-out queue: whichever the positions of
-- the two indices and however often they go round.
pub run_refines :
    (ops : List Op) (q : Queue)
    → IsValid q
    → Fits (q.max - 1) (contents q) ops
    → run q ops ≡ ok (spec_run (q.max - 1) (contents q) ops)
run_refines ops q v h = run_from ops q (q.max - 1) (contents q) v refl refl h
