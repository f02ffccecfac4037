-- ===== src/RbTree/Below.antt =====
-- `rbtree_insert` below a black node, where no rotation is needed
use lidas.Base.{
  ℕ, suc, zero, ◌<◌, ◌≡◌, ◌≢◌, refl, ap, ◌∙◌, List, ◌∷◌, ok, ne→==, arith, Returns, Returns-inv,
  returns, success,
}
use mathlib.Core.Path.{subst}
use lidas.Memory.Cache.{Cache, mem_cache_free}
use lidas.Memory.Cache.Chain.{IsFree, mem_cache_free_lem}
use lidas.RbTree.{black, red, Store, Rbtree, rbt_rewind}
use lidas.RbTree.Shape.{Tree, root_of, Shape, NotIn, Distinct, Shape-nonnull}
use lidas.RbTree.Search.{height}
use lidas.RbTree.Insert.{make_node, find_place, adopt, insert_case1, rbtree_insert}
use lidas.RbTree.Fresh.{made, make_node_lem, Shape-made}
use lidas.RbTree.Inserted.{adopted}
use lidas.RbTree.Place.{place, above, grafted, place-ne, find_place_lem}
use lidas.RbTree.Graft.{Shape-grafted, rbt_rewind-grafted, place-father, above-ne, above-ne_place}
use lidas.RbTree.Planting.{copied, given_up, last, m, copied-links, last-Planted, last-new}

-- the run of `rbtree_insert` below a node, by its steps
insert-steps :
    (rounds : ℕ) (t : Rbtree) (n r l p key datum type : ℕ) (m : Store) (c c' : Cache)
    → t.root ≢ 0
    → n ≢ 0
    → p ≢ 0
    → make_node key datum type t ≡ ok (n, record t { nodes = m; pool = c })
    → find_place rounds m key t.root ≡ ok p
    → adopt (copied m n p) p ≡ ok (adopted (copied m n p) p l r)
    → mem_cache_free n c ≡ ok c'
    → insert_case1 rounds (given_up (adopted (copied m n p) p l r) n c) p
      ≡ ok (given_up (adopted (copied m n p) p l r) n c)
    → rbt_rewind rounds (given_up (adopted (copied m n p) p l r) n c) p ≡ ok t.root
    → rbtree_insert rounds key datum type t
      ≡ ok (
        success,
        record { root = t.root; nodes = given_up (adopted (copied m n p) p l r) n c; pool = c' },
      )
unfolding rbtree_insert copied given_up
insert-steps rounds t n r l p key datum type m c c' ht hn hp made_run found links freed fixed back =
    rw (made_run, ne→== t.root 0 ht, found, ne→== p 0 hp, links, freed, ne→== n 0 hn, fixed, back)
      refl

-- nothing is to be done below a black father
insert_case1-black :
    (k : ℕ) (s : Store) (p f : ℕ)
    → p ≢ 0
    → f ≢ 0
    → (s p).father ≡ f
    → (s f).color ≡ black
    → insert_case1 (suc k) s p ≡ ok s
unfolding insert_case1
insert_case1-black k s p f hp hf e b = rw (ne→== p 0 hp, e, ne→== f 0 hf, b) refl

pub rbtree_insert-black :
    (rounds : ℕ) (t : Rbtree) (tree : Tree) (n r l key datum type : ℕ) (rest : List ℕ)
    → root_of tree ≡ t.root
    → Shape t.nodes 0 tree
    → Distinct tree
    → NotIn n tree
    → NotIn r tree
    → NotIn l tree
    → IsFree t.pool (n ∷ r ∷ l ∷ rest)
    → height tree < rounds
    → place key tree ≢ 0
    → above key 0 tree ≢ 0
    → (t.nodes (above key 0 tree)).color ≡ black
    → Returns
        (λ (status, t').
          (status ≡ success)
          × (t'.root ≡ t.root)
          × Shape t'.nodes 0 (grafted key datum l r tree)
          × IsFree t'.pool (n ∷ rest)
          × ((t'.nodes (place key tree)).color ≡ red)
          × ((t'.nodes (place key tree)).type ≡ type)
          × ((a : ℕ) → place key tree ≢ a → l ≢ a → r ≢ a → n ≢ a → t'.nodes a ≡ t.nodes a))
        (rbtree_insert rounds key datum type t)
unfolding last m
rbtree_insert-black zero t tree n r l key datum type rest root h distinct n_out r_out l_out free
      enough absent below dark =
    absurd (omega (arith, enough))
rbtree_insert-black (suc k) t tree n r l key datum type rest root h distinct n_out r_out l_out free
      enough absent below dark =
    let p = place key tree in
    let f = above key 0 tree in
    let n_free = free.chain.2 in
    let r_free = free.chain.3.2 in
    let n-ne_p = place-ne key n p tree n_out refl absent in
    let r-ne_p = place-ne key r p tree r_out refl absent in
    let l-ne_p = place-ne key l p tree l_out refl absent in
    let (c, made_run, free', hn, hr, hl) = make_node_lem t n r l key datum type rest free in
    let (c', freed, free'') = Returns-inv (mem_cache_free_lem c rest n free' hn n_free.1.1) in
    let P =
      last-Planted t.nodes n r l p key datum type c n_free.0 n_free.1.0 r_free.0 n-ne_p r-ne_p
        l-ne_p hl hr in
    let grown = Shape-grafted P 0 tree h distinct l_out r_out n_out refl absent in
    let (is_red, typed) =
      last-new t.nodes n r l p key datum type c n_free.0 n_free.1.0 r_free.0 n-ne_p r-ne_p l-ne_p in
    let links =
      copied-links t.nodes n r l p key datum type c n_free.0 n_free.1.0 r_free.0 n-ne_p r-ne_p
        l-ne_p hl hr in
    let found =
      find_place_lem (suc k) (made t.nodes n r l key datum type) key 0 tree
        (Shape-made t.nodes n r l key datum type 0 tree n_out r_out l_out h) enough in
    let end =
      last t.nodes n r l p key datum type c n_free.0 n_free.1.0 r_free.0 n-ne_p r-ne_p l-ne_p in
    let same =
      P.other f (above-ne_place key 0 p tree distinct absent refl absent)
        (above-ne key 0 l tree hl l_out) (above-ne key 0 r tree hr r_out)
        (above-ne key 0 n tree hn n_out) in
    let father = P.father ∙ place-father key 0 p t.nodes tree h refl absent in
    let fixed = insert_case1-black k end p f absent below father (ap (λ x. x.color) same ∙ dark) in
    let back =
      rbt_rewind-grafted (suc k) end key datum l r p tree grown refl absent enough ∙ ap ok root in
    let at_root =
      subst (λ x. find_place (suc k) (made t.nodes n r l key datum type) key x ≡ ok p) root found in
    let rooted : t.root ≢ 0 = λ e. Shape-nonnull t.nodes 0 tree h (root ∙ e) in
    rw
      (insert-steps (suc k) t n r l p key datum type (made t.nodes n r l key datum type) c c' rooted
        hn absent made_run at_root links freed fixed back)
      (returns (refl, refl, grown, free'', is_red, typed, P.other))
