-- ===== src/RbTree/Examples.antt =====
-- Small trees of src/modules/rbtree.c: a search, the rotations and insertions
use lidas.Base.{
  success, ◌+◌, if◌then◌else◌, ◌==◌, Returns, arith, ℕ, ◌≡◌, refl, ◌*◌, true, false, [], ◌∷◌, ok,
  out_of_fuel,
}
use lidas.Memory.Cache.{Cache}
use lidas.Memory.Cache.Chain.{IsFree}
use lidas.RbTree.Inserted.{rbtree_insert-empty}
use lidas.RbTree.Lookup.{rbtree_search-insert}
use lidas.RbTree.Shape.{Tree, tip, fork, Shape, Distinct, cells}
use lidas.RbTree.Search.{rbtree_search_lem, IsOrdered}
use lidas.RbTree.Rotation.{Turned, rotat_left_lem, rbt_rewind-rotat_left}
use lidas.RbTree.{
  black, Node, Store, rbt_rewind, rotat_left, rbtree_search, rbt_search, rbt_del, Rbtree,
}
use lidas.RbTree.Insert.{rbtree_insert}

abbrev inner : (father key l r : ℕ) → Node
inner father key l r = record {
  r_child = r;
  l_child = l;
  father = father;
  color = black;
  nil = false;
  type = 0;
  key = key;
  datum = 10 * key;
}

abbrev outer : (father : ℕ) → Node
outer father = record {
  r_child = 0;
  l_child = 0;
  father = father;
  color = black;
  nil = true;
  type = 0;
  key = 0;
  datum = 0;
}

-- 2 and 3 below the node at 1, if `father` is 1
abbrev pair : (father : ℕ) → Store
pair father a =
    if a == 1
    then inner 0 9 2 8
    else if a == 2
    then inner father 2 4 3
    else if a == 3
    then inner 2 5 5 6
    else if a == 4
    then outer 2
    else if a == 5
    then outer 3
    else if a == 6
    then outer 3
    else outer 1

abbrev pair_tree : Tree
pair_tree = fork (tip 4) 2 2 20 (fork (tip 5) 3 5 50 (tip 6))

abbrev turned_tree : Tree
turned_tree = fork (fork (tip 4) 2 2 20 (tip 5)) 3 5 50 (tip 6)

pair-Shape : (father : ℕ) → Shape (pair father) father pair_tree
pair-Shape father = (
  ground arith,
  refl,
  refl,
  refl,
  refl,
  refl,
  refl,
  (ground arith, refl, refl),
  (
    ground arith,
    refl,
    refl,
    refl,
    refl,
    refl,
    refl,
    (ground arith, refl, refl),
    (ground arith, refl, refl),
  ),
)

pair-Distinct : Distinct pair_tree
pair-Distinct = ground arith

rotat_left_lem_example :
    Returns (Turned (pair 1) 1 2 turned_tree) (rotat_left (pair 1) 2)
    × (cells turned_tree ≡ cells pair_tree)
rotat_left_lem_example =
    rotat_left_lem (pair 1) 2 3 1 2 20 5 50 (tip 4) (tip 5) (tip 6) (pair-Shape 1) pair-Distinct
      (ground arith) (ground arith)

rbt_rewind-rotat_left_example :
    Returns
      (λ s'. (rbt_rewind 1000 s' 2 ≡ out_of_fuel) × (rbt_rewind 1000 s' 3 ≡ out_of_fuel))
      (rotat_left (pair 0) 2)
rbt_rewind-rotat_left_example =
    rbt_rewind-rotat_left 1000 (pair 0) 2 3 2 20 5 50 (tip 4) (tip 5) (tip 6) (pair-Shape 0)
      pair-Distinct

pair-IsOrdered : IsOrdered pair_tree
pair-IsOrdered = ground arith

rbtree_search_lem_example :
    (rbtree_search 3 (pair 0) 5 2 rbt_search ≡ ok 50)
    × (rbtree_search 3 (pair 0) 5 2 rbt_del ≡ ok 3)
rbtree_search_lem_example =
    rbtree_search_lem 3 (pair 0) 5 0 pair_tree (pair-Shape 0) pair-IsOrdered (ground arith)

abbrev three_free : Cache
three_free = record {
  at = 100;
  size = 48;
  num = 3;
  next = 1000;
  cells = λ a. record { prev = 0; next = a + 48 };
}

three_free-IsFree : IsFree three_free (1000 ∷ 1048 ∷ 1096 ∷ [])
three_free-IsFree = record { chain = ground arith; number = refl }

abbrev pair_below : Rbtree
pair_below = record { root = 2; nodes = pair 0; pool = three_free }

rbtree_insert-empty_example :
    Returns
      (λ (status, t').
        (status ≡ success)
        × (t'.root ≡ 1000)
        × Shape t'.nodes 0 (fork (tip 1096) 1000 9 90 (tip 1048))
        × ((t'.nodes 1000).color ≡ black)
        × IsFree t'.pool [])
      (rbtree_insert 3 9 90 0 (record { root = 0; nodes = pair 0; pool = three_free }))
rbtree_insert-empty_example =
    rbtree_insert-empty 3 (record { root = 0; nodes = pair 0; pool = three_free }) 1000 1048 1096 9
      90 0 [] refl three_free-IsFree

rbtree_search-insert_example :
    Returns
      (λ (status, t').
        (rbtree_search 4 t'.nodes 9 t'.root rbt_search ≡ ok 90)
        × (rbtree_search 4 t'.nodes 5 t'.root rbt_search ≡ rbtree_search 4 (pair 0) 5 2 rbt_search))
      (rbtree_insert 4 9 90 0 pair_below)
rbtree_search-insert_example =
    rbtree_search-insert 4 pair_below pair_tree 1000 1048 1096 9 90 0 [] 5 refl (pair-Shape 0)
      pair-Distinct (ground arith) (ground arith) (ground arith) three_free-IsFree (ground arith)
      (ground arith) (ground arith) refl pair-IsOrdered (ground arith) (ground arith) (ground arith)
