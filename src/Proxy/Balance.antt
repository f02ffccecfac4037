-- ===== src/Proxy/Balance.antt =====
-- Which backend `load_balance` of src/proxy.c takes
use lidas.Base.{
  ℕ, ◌+◌, ◌-◌, ◌*◌, ◌≤◌, ◌<◌, ◌≡◌, refl, ap, arith, ==_self, length, set, length-set,
  get_or-set_self, Returns, returns, Returns-bind, Returns-inv,
}
use lidas.Queue.Valid.{IsValid}
use lidas.Queue.Spec
use lidas.Queue.Refine.{contents, queue_out_refines}
use lidas.Heap.{Heap, blank}
use lidas.Heap.Order.{entry, IsHeap, load-ok}
use lidas.Heap.Delete.{heap_max_delete-eq}
use lidas.Heap.Reinsert.{heap_insert-Returns}
use lidas.Proxy.{Group, sizeof_entry, load_balance}

-- `load_balance` of a group of at least four nodes does not take the node at the root of the heap,
-- which has the greatest weight, but the last one. It returns the first socket of that node's queue,
-- or 0, which leaves the queue. This holds if the weight in the node is not above its key.
pub load_balance-leaf :
    (rounds : ℕ) (g : Group)
    → IsHeap g.nodes
    → 4 ≤ g.nodes.cnt
    → g.nodes.cnt ≤ rounds
    → (let last = entry g.nodes.p g.nodes.cnt in
        IsValid (g.at last.datum).fds × ((g.at last.datum).weight ≤ last.key))
    → Returns
        (λ (t, p, g').
          (p ≡ (entry g.nodes.p g.nodes.cnt).datum)
          × ((t, contents (g'.at p).fds) ≡ Spec.pop (contents (g.at p).fds))
          × (g'.nodes.cnt ≡ g.nodes.cnt))
        (load_balance rounds g)
unfolding load_balance
load_balance-leaf rounds g v four enough (valid, light) =
    let p = g.nodes.p in
    let last = entry p g.nodes.cnt in
    let q = set p 1 last in
    let inside : 1 < length p = omega (arith, v.block, v.used, four) in
    let inside' : 1 < length q = omega (arith, inside, length-set p 1 last) in
    let slot : entry q 1 ≡ last = get_or-set_self p 1 last blank inside in
    let (r, e, (w, c, m)) = Returns-inv (queue_out_refines (g.at last.datum).fds valid) in
    let h : Heap = record g.nodes { cnt = g.nodes.cnt - 1; p = q } in
    let inserted =
      heap_insert-Returns rounds (g.block + 1 * sizeof_entry) (g.at last.datum).weight h
        (omega (arith, v.used, four)) (omega (arith, v.block, length-set p 1 last))
        (omega (arith, four)) (omega (arith, four, enough))
        (omega (arith, light, ap (λ x. x.key) slot)) in
    rw
      (
        heap_max_delete-eq rounds g.nodes v four (omega (arith, four, enough)),
        load-ok q 1 inside',
        slot,
        e,
        ==_self last.datum,
      )
      (Returns-bind inserted
        (λ x n. returns (refl, rw (==_self last.datum) c, omega (arith, n, four))))
