-- ===== src/RbTree/Tests.antt =====
-- Runs of the red-black tree of src/modules/rbtree.c
use lidas.Base.{ltb, ℕ, ◌≡◌, refl, Bool, true, some, List, [], ◌∷◌, ◌>>=◌, Run, ok, out_of_fuel}
use lidas.Memory.Cache.{
  Cache, mem_cache_locate, locate_from, mem_cache_alloc, unlink, mem_cache_free,
}
use lidas.Stack.{stack_push, stack_pop}
use lidas.RbTree.{
  black, Node, rbt_rewind, get_uncle, sibling, rotat_left, rotat_right, find_node, rbtree_search,
  rbt_search, Rbtree,
}
use lidas.RbTree.Insert.{
  make_node, find_place, insert_case1, insert_case2, insert_case3, insert_case4, rbtree_insert,
}
use lidas.RbTree.Delete.{
  delete_case1, delete_case2, delete_case3, delete_case4, delete_case5, delete_case6,
  find_replacement, empty_node, splice_out, delete_from, rbtree_delete,
}
use lidas.RbTree.Walk.{rbtree_ergodic, rbtree_stack_del}

abbrev blank : Node
blank = record {
  r_child = 0;
  l_child = 0;
  father = 0;
  color = black;
  nil = true;
  type = 0;
  key = 0;
  datum = 0;
}

abbrev pool : Cache
pool =
    (mem_cache_locate
      (record {
        at = 100;
        size = 48;
        num = 12;
        next = 0;
        cells = λ a. record { prev = 0; next = 0 };
      })
      1000 48).1

abbrev empty : Rbtree
empty = record { root = 0; nodes = λ a. blank; pool = pool }

abbrev insert_all : List (ℕ × ℕ) → Rbtree → Run Rbtree
insert_all [] t = ok t
insert_all ((k, d) ∷ ks) t = rbtree_insert 10 k d 0 t >>= (λ r. insert_all ks r.1)

abbrev looked_up : ℕ → Run Rbtree → Run ℕ
looked_up k r = r >>= (λ t. rbtree_search 10 t.nodes k t.root rbt_search)

-- The data of the second of three keys, with one key on each side of the first.
search_test : looked_up 9 (insert_all ((5, 50) ∷ (3, 30) ∷ (9, 90) ∷ []) empty) ≡ ok 90
unfolding mem_cache_locate locate_from mem_cache_alloc unlink mem_cache_free rbt_rewind get_uncle
    sibling rotat_left rotat_right find_node rbtree_search make_node find_place insert_case1
    insert_case2 insert_case3 insert_case4 rbtree_insert
search_test = refl

-- The third of three keys in ascending order makes `rbtree_insert` look for a root for good.
ascending_test : looked_up 1 (insert_all ((1, 10) ∷ (2, 20) ∷ (3, 30) ∷ []) empty) ≡ out_of_fuel
unfolding mem_cache_locate locate_from mem_cache_alloc unlink mem_cache_free rbt_rewind get_uncle
    sibling rotat_left rotat_right find_node rbtree_search make_node find_place insert_case1
    insert_case2 insert_case3 insert_case4 rbtree_insert
ascending_test = refl

-- A key below 0 is stored to the left of 5 and searched for to its right.
negative_test : looked_up 4294967295 (insert_all ((5, 50) ∷ (4294967295, 10) ∷ []) empty) ≡ ok 0
unfolding mem_cache_locate locate_from mem_cache_alloc unlink mem_cache_free rbt_rewind get_uncle
    sibling rotat_left rotat_right find_node rbtree_search make_node find_place insert_case1
    insert_case2 insert_case3 insert_case4 rbtree_insert
negative_test = refl

abbrev delete_of : (key : ℕ) → Run Rbtree → Run (List ℕ × ℕ)
delete_of key r = r >>= (λ t. rbtree_delete 10 key t >>= (λ (status, cleaned, t').
    rbtree_search 10 t'.nodes 3 t'.root rbt_search >>= (λ d. ok (cleaned, d))))

-- The entry that takes the place of a deleted one is given to the cleaner too, and stays in the tree.
cleaned_test :
    delete_of 5 (insert_all ((5, 50) ∷ (3, 30) ∷ (9, 90) ∷ []) empty) ≡ ok (50 ∷ 30 ∷ [], 30)
unfolding mem_cache_locate locate_from mem_cache_alloc unlink mem_cache_free rbt_rewind get_uncle
    sibling rotat_left rotat_right find_node rbtree_search make_node find_place insert_case1
    insert_case2 insert_case3 insert_case4 rbtree_insert find_replacement empty_node splice_out
    delete_from rbtree_delete
cleaned_test = refl

abbrev old_ones : (d : ℕ) → Bool
old_ones d = ltb d 60

abbrev swept : Run Rbtree → Run (List ℕ × ℕ)
swept r = r >>= (λ t.
    rbtree_ergodic 10 t.nodes old_ones t.root (some (record { slots = 0 ∷ 0 ∷ 0 ∷ []; cnt = 0 }))
    >>= (λ stack. rbtree_stack_del 10 stack t >>= (λ (cleaned, t', stack').
        rbtree_search 10 t'.nodes 9 t'.root rbt_search >>= (λ d. ok (cleaned, d)))))

-- A walk that marks two entries, and the deletion of those.
swept_test : swept (insert_all ((5, 50) ∷ (3, 30) ∷ (9, 90) ∷ []) empty) ≡ ok (30 ∷ 50 ∷ [], 90)
unfolding mem_cache_locate locate_from mem_cache_alloc unlink mem_cache_free rbt_rewind get_uncle
    sibling rotat_left rotat_right find_node rbtree_search make_node find_place insert_case1
    insert_case2 insert_case3 insert_case4 rbtree_insert find_replacement empty_node splice_out
    delete_case1 delete_case2 delete_case3 delete_case4 delete_case5 delete_case6 delete_from
    rbtree_delete stack_push stack_pop rbtree_ergodic rbtree_stack_del
swept_test = refl
