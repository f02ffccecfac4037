-- ===== src/Config/Groups.antt =====
-- Whether `load_proxy` and `load_proxy_nodes` of src/config.c return
use lidas.Base.{
  ℕ, ◌+◌, ◌<◌, ◌≡◌, refl, sym, ap, ◌∙◌, true, List, [], ◌∷◌, arith, Run, ok, fault, out_of_fuel,
  ◌>>=◌, Status, bind-eq, bind_assoc,
}
use lidas.Http.Crc.{crc32_port}
use lidas.Http.Hash.{hash_set}
use lidas.Heap.{Heap, heap_init, heap_insert, heap_traversal}
use lidas.Heap.Reinsert.{heap_init-full}
use lidas.Heap.Diverge.{heap_insert-fresh}
use lidas.Text.Numerals.{atoi}
use lidas.Config.{
  Backend, ProxyNode, read_node, insert_nodes, load_proxy_nodes, xml_getlen, GroupFile, load_proxy,
}

-- `load_proxy_nodes` of a group of two or more nodes whose first weight is positive never returns:
-- no number of rounds is enough for the loop of `heap_insert`. Of a group of one node it returns a
-- heap whose only entry holds NULL in the place of the node.
pub load_proxy_nodes-loses :
    (rounds cell : ℕ) (b b' : Backend) (bs : List Backend) (cells : List ℕ) (h : Heap)
    → (0 < atoi b.weight
        → load_proxy_nodes rounds true (b ∷ b' ∷ bs) (cell ∷ cells) h ≡ out_of_fuel)
      × ((load_proxy_nodes rounds true (b ∷ []) (cell ∷ cells) h >>= (λ r. heap_traversal r.1))
          ≡ ok (0 ∷ []))
unfolding load_proxy_nodes insert_nodes read_node xml_getlen
load_proxy_nodes-loses rounds cell b b' bs cells h =
    let w = atoi b.weight in
    let insert : Status × Heap → Run (Status × Heap) = λ x. heap_insert rounds cell w x.1 in
    let others : Status × Heap → Run (List ProxyNode × Heap) = λ x.
      insert_nodes rounds (b' ∷ bs) cells x.1
      >>= (λ (nodes, last). ok (read_node b ∷ nodes, last)) in
    let alone : Status × Heap → Run (List ProxyNode × Heap) = λ x. ok (read_node b ∷ [], x.1) in
    let visits : List ProxyNode × Heap → Run (List ℕ) = λ r. heap_traversal r.1 in
    let made = heap_init true (1 + (1 + xml_getlen bs)) 0 0 h in
    let fresh = heap_insert-fresh rounds (1 + (1 + xml_getlen bs)) cell w h (omega arith) in
    (
      (λ positive. bind_assoc made insert others ∙ ap (λ m. m >>= others) (fresh positive)),
      (sym (bind_assoc (heap_init true 1 0 0 h) (λ x. insert x >>= alone) visits)
          ∙ bind-eq (heap_init true 1 0 0 h) _ _ (λ x. sym (bind_assoc (insert x) alone visits))
          ∙ heap_init-full rounds cell w h),
    )

-- `load_proxy` of a file with a group divides by zero as long as `lida_read_hosts` has not set
-- `proxy_group_hash_n`, which the process calls only afterwards.
pub load_proxy-faults :
    (rounds : ℕ) (g : GroupFile) (gs : List GroupFile) → load_proxy rounds 0 (g ∷ gs) ≡ fault
unfolding load_proxy crc32_port hash_set
load_proxy-faults rounds g gs = refl
