-- ===== src/QueueChain/Dequeue.antt =====
-- `queue_chain_out` (src/queue_chain.c) takes the oldest node, unless it is the only one.
use lidas.Base.{◌≡◌, refl, false, List, [], ◌∷◌, arith, ◌==◌, ne→==, ok, fault, Returns, returns}
use lidas.QueueChain.{Node, Control, queue_chain_out}
use lidas.QueueChain.Links.{Item, Holds, Links-put, put_node_self}

-- `queue_chain_out` of a queue of at least two nodes returns the data of the oldest, frees its node,
-- and leaves the others.
pub queue_chain_out-oldest :
    (c : Control) (x y : Item) (rest : List Item)
    → Holds c (x ∷ y ∷ rest)
    → Returns
        (λ (datum, freed, c'). (datum ≡ x.1) × (freed ≡ x.0) × Holds c' (y ∷ rest))
        (queue_chain_out c)
unfolding queue_chain_out
queue_chain_out-oldest c x y rest h =
    let (at_tail, real, apart, first, datum, more) = h.links in
    let (at_next, real', apart', back, datum', others) = more in
    let some_node : (c.tail == 0) ≡ false = ground (arith, at_tail, real) in
    let counted : (c.cnt == 0) ≡ false = ground (arith, h.number) in
    let n : Node = record (c.nodes y.0) { prev = 0 } in
    rw (some_node, counted, at_tail, at_next, ne→== _ _ real')
      (returns (
        datum,
        back,
        record {
          links = rw (put_node_self c.nodes y.0 n) (
            refl,
            real',
            apart',
            refl,
            datum',
            Links-put c.nodes y.0 n y.0 (c.nodes y.0).next rest c.head apart' others,
          );
          number = omega (arith, h.number);
        },
      ))

-- `queue_chain_out` of the only node writes through NULL. Of no node it returns NULL.
pub queue_chain_out-last :
    (c : Control)
    → ((x : Item) → Holds c (x ∷ []) → queue_chain_out c ≡ fault)
      × (Holds c [] → queue_chain_out c ≡ ok (0, 0, c))
unfolding queue_chain_out
queue_chain_out-last c = (
  (λ x h.
      let (at_tail, real, apart, first, datum, (none_next, at_head)) = h.links in
      let some_node : (c.tail == 0) ≡ false = ground (arith, at_tail, real) in
      let counted : (c.cnt == 0) ≡ false = ground (arith, h.number) in
      rw (some_node, counted, at_tail, none_next) refl),
  (λ h. rw h.links.0 refl),
)
