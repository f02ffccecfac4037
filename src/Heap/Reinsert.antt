-- ===== src/Heap/Reinsert.antt =====
-- `heap_insert` (src/heap.c) into an array that need not be ordered, as `load_balance` leaves it
use lidas.Base.{
  ℕ, zero, suc, ◌+◌, ◌/◌, ◌≤◌, ◌<◌, ◌≡◌, refl, ap, ◌≢◌, inl, inr, true, List, [], ◌∷◌, arith, ltb,
  ltb→lt, le→leb_false, Bool-cases, length, set, length-set, ok, ◌>>=◌, Returns, returns,
  Returns-bind,
}
use lidas.Heap.{Entry, Heap, sift, heap_init, heap_insert, heap_traversal, visit}
use lidas.Heap.Order.{entry, key, sift-climb, sift-stop, store-ok, key-set_ne}

-- The loop of `heap_insert` stops at the latest below slot 1 if the key is not above the one there.
sift-stops :
    (fuel : ℕ) (p : List Entry) (i k : ℕ)
    → 2 ≤ i
    → i ≤ fuel
    → i < length p
    → k ≤ key p 1
    → Returns (λ (q, j). j < length q) (sift fuel p i k)
sift-stops zero p i k two enough inside small = absurd (omega (arith, two, enough))
sift-stops (suc fuel) p i k two enough inside small = elim (Bool-cases (ltb (key p (i / 2)) k)) [
  | inl climbs ↦
      let l : key p (i / 2) < k = ltb→lt _ _ climbs in
      let q = set p i (entry p (i / 2)) in
      let above : i / 2 ≢ 1 = λ e. omega (arith, l, small, ap (key p) e) in
      let root : key q 1 ≡ key p 1 = key-set_ne p i 1 _ (omega (arith, two)) in
      rw (sift-climb p i k fuel inside l) (
        sift-stops fuel q (i / 2) k (omega (arith, above, two)) (omega (arith, two, enough))
          (omega (arith, inside, length-set p i (entry p (i / 2)))) (omega (arith, small, root)))
  | inr stops ↦ rw (sift-stop p i k fuel inside (ground (arith, stops))) (returns inside)
]

-- `heap_insert` of a key that is not above the one in slot 1 returns, whatever the other keys are.
pub heap_insert-Returns :
    (fuel d k : ℕ) (h : Heap)
    → h.cnt < h.size
    → length h.p ≡ h.size + 1
    → 1 ≤ h.cnt
    → h.cnt + 1 ≤ fuel
    → k ≤ key h.p 1
    → Returns (λ r. r.1.cnt ≡ h.cnt + 1) (heap_insert fuel d k h)
unfolding heap_insert
heap_insert-Returns fuel d k h room block some_in enough small =
    rw (le→leb_false h.size h.cnt room) (
      Returns-bind
        (sift-stops fuel h.p (h.cnt + 1) k (omega (arith, some_in)) enough
          (omega (arith, room, block)) small)
        (λ r inside. rw (store-ok r.0 r.1 (record { key = k; datum = d }) inside) (returns refl)))

-- The heap that `heap_init` makes with room for one entry is full: what is inserted is not in it.
pub heap_init-full :
    (fuel d k : ℕ) (h : Heap)
    → (heap_init true 1 0 0 h >>= (λ r. heap_insert fuel d k r.1 >>= (λ x. heap_traversal x.1)))
      ≡ ok (0 ∷ [])
unfolding heap_init heap_insert heap_traversal visit
heap_init-full fuel d k h = refl
