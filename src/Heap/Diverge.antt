-- ===== src/Heap/Diverge.antt =====
-- `heap_insert` of a key above the root's: the loop has no test for the root, and does not end.
use lidas.Base.{
  ℕ, zero, suc, ◌+◌, ◌/◌, ◌≤◌, ◌<◌, ◌≡◌, refl, ap, ◌∙◌, inl, inr, true, List, arith, ◌==◌,
  le→leb_false, ==_iff, Bool-cases, length, set, length-set, set-get_or, out_of_fuel, ◌>>=◌,
  Returns-inv,
}
use lidas.Heap.{Entry, Heap, blank, sift, heap_init, heap_insert}
use lidas.Heap.Insert.{heap_init_lem}
use lidas.Heap.Order.{entry, key, IsHeap, root_greatest, sift-climb, key-set_ne}

-- Once the index is 0 the loop stays there.
sift-zero :
    (fuel : ℕ) (p : List Entry) (k : ℕ) → 0 < length p → key p 0 < k → sift fuel p 0 k ≡ out_of_fuel
unfolding sift
sift-zero zero p k h l = refl
sift-zero (suc fuel) p k h l =
    sift-climb p 0 k fuel h l ∙ rw (set-get_or p 0 blank) (sift-zero fuel p k h l)

sift-diverges :
    (fuel : ℕ) (p : List Entry) (i k : ℕ)
    → i < length p
    → ((j : ℕ) → j ≤ i / 2 → key p j < k)
    → sift fuel p i k ≡ out_of_fuel
unfolding sift
sift-diverges zero p i k h l = refl
sift-diverges (suc fuel) p zero k h l = sift-zero (suc fuel) p k h (l 0 (omega arith))
sift-diverges (suc fuel) p (suc i) k h l =
    sift-climb p (suc i) k fuel h (l (suc i / 2) (omega arith))
    ∙ sift-diverges fuel (set p (suc i) (entry p (suc i / 2))) (suc i / 2) k
        (rw (length-set p (suc i) (entry p (suc i / 2))) (omega arith))
        (λ j b. rw (key-set_ne p (suc i) j (entry p (suc i / 2)) (omega arith)) (l j (omega arith)))

-- In a heap whose `size` is not reached, if the unused slot 0 and the root both have a key below
-- `key`, then `heap_insert` of `key` does not return, whatever number of rounds it is given.
pub heap_insert-diverges :
    (fuel datum k : ℕ) (h : Heap)
    → IsHeap h
    → h.cnt < h.size
    → 1 ≤ h.cnt
    → key h.p 0 < k
    → key h.p 1 < k
    → heap_insert fuel datum k h ≡ out_of_fuel
unfolding heap_insert
heap_insert-diverges fuel datum k h v room some_in zero_below root_below =
    let below : (j : ℕ) → j ≤ (h.cnt + 1) / 2 → key h.p j < k = λ j b. elim (Bool-cases (j == 0)) [
      | inl e ↦ rw ((==_iff j 0).0 e) zero_below
      | inr e ↦ omega (arith, root_greatest h.p h.cnt j v.ordered (ground arith) (omega arith))
    ] in
    rw (
      le→leb_false h.size h.cnt room,
      sift-diverges fuel h.p (h.cnt + 1) k (omega (arith, v.block)) below,
    )

-- After `heap_init` with the key 0 and room for two entries, as `load_proxy_nodes` makes it,
-- `heap_insert` of any positive key does not return.
pub heap_insert-fresh :
    (fuel size datum weight : ℕ) (h : Heap)
    → 2 ≤ size
    → 0 < weight
    → (heap_init true size 0 0 h >>= λ r. heap_insert fuel datum weight r.1) ≡ out_of_fuel
heap_insert-fresh fuel size datum weight h room positive =
    let (r, e, (done, v, sized, one, zero_blank, root)) =
      Returns-inv (heap_init_lem size 0 0 h (omega arith)) in
    rw e (
      heap_insert-diverges fuel datum weight r.1 v (omega arith) (omega arith) (omega arith)
        (omega (arith, ap (λ x. x.key) root)))
