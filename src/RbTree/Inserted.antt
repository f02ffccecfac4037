-- ===== src/RbTree/Inserted.antt =====
-- The tree that `rbtree_insert` leaves
use lidas.Base.{
  ℕ, ◌≡◌, ◌≢◌, refl, sym, ap, ◌∙◌, List, ◌∷◌, ok, ne→==, arith, Returns, returns, success,
}
use lidas.Memory.Cache.{Cache}
use lidas.Memory.Cache.Chain.{IsFree}
use lidas.RbTree.{black, Node, Store, put_node, Rbtree}
use lidas.RbTree.Shape.{tip, fork, Shape, put_node-other}
use lidas.RbTree.Insert.{make_node, adopt, rbtree_insert}
use lidas.RbTree.Fresh.{made, made-n, made-r, made-l, make_node_lem}

-- the nodes once `l` and `r` have the father `p`
pub adopted : Store → (p l r : ℕ) → Store
adopted s p l r =
    let s₁ = put_node s l (record (s l) { father = p }) in
    put_node s₁ r (record (s₁ r) { father = p })

module _ (s : Store) (p l r : ℕ) (p-ne_l : p ≢ l) (p-ne_r : p ≢ r) (l-ne_r : l ≢ r) where
  pub adopt_lem :
      (s p).l_child ≡ l → (s p).r_child ≡ r → l ≢ 0 → r ≢ 0 → adopt s p ≡ ok (adopted s p l r)
  unfolding adopted
  adopt_lem el er hl hr =
      rw
        (
          el,
          ne→== l 0 hl,
          put_node-other s l (record (s l) { father = p }) p (λ e. p-ne_l (sym e)),
          er,
          ne→== r 0 hr,
        )
        refl

  pub adopted-p : adopted s p l r p ≡ s p
  unfolding adopted
  adopted-p = ground (arith, p-ne_l, p-ne_r)

  pub adopted-l : adopted s p l r l ≡ record (s l) { father = p }
  unfolding adopted
  adopted-l = ground (arith, l-ne_r)

  pub adopted-r : adopted s p l r r ≡ record (s r) { father = p }
  unfolding adopted
  adopted-r = ground (arith, l-ne_r)

  pub adopted-other : (a : ℕ) → l ≢ a → r ≢ a → adopted s p l r a ≡ s a
  unfolding adopted
  adopted-other a hl hr = ground (arith, hl, hr)

-- the nodes once `n` is the black root
unfoldable rooted : Store → ℕ → Store
rooted s n =
    let s₁ = put_node s n (record (s n) { color = black }) in
    put_node s₁ n (record (s₁ n) { father = 0 })

rooted-n : (s : Store) (n : ℕ) → rooted s n n ≡ record (s n) { color = black; father = 0 }
unfolding rooted
rooted-n s n = ground arith

rooted-other : (s : Store) (n a : ℕ) → n ≢ a → rooted s n a ≡ s a
unfolding rooted
rooted-other s n a h = ground (arith, h)

-- the run of `rbtree_insert` on an empty tree, once it has its new node
rbtree_insert-at_root :
    (rounds : ℕ) (t : Rbtree) (n r l key datum type : ℕ) (m : Store) (c : Cache)
    → t.root ≡ 0
    → make_node key datum type t ≡ ok (n, record t { nodes = m; pool = c })
    → n ≢ 0
    → adopt (rooted m n) n ≡ ok (adopted (rooted m n) n l r)
    → rbtree_insert rounds key datum type t
      ≡ ok (success, record { root = n; nodes = adopted (rooted m n) n l r; pool = c })
unfolding rbtree_insert rooted
rbtree_insert-at_root rounds t n r l key datum type m c no_root run hn links =
    rw (run, no_root, ne→== n 0 hn, links) refl

-- The first entry of an empty tree takes three free cells and becomes the black root.
pub rbtree_insert-empty :
    (rounds : ℕ) (t : Rbtree) (n r l key datum type : ℕ) (rest : List ℕ)
    → t.root ≡ 0
    → IsFree t.pool (n ∷ r ∷ l ∷ rest)
    → Returns
        (λ (status, t').
          (status ≡ success)
          × (t'.root ≡ n)
          × Shape t'.nodes 0 (fork (tip l) n key datum (tip r))
          × ((t'.nodes n).color ≡ black)
          × IsFree t'.pool rest)
        (rbtree_insert rounds key datum type t)
unfolding rbtree_insert
rbtree_insert-empty rounds t n r l key datum type rest no_root free =
    let n_out = free.chain.2 in
    let r_out = free.chain.3.2 in
    let (c, run, free', ne, re, le) = make_node_lem t n r l key datum type rest free in
    let m = made t.nodes n r l key datum type in
    let M = made-n t.nodes n r l key datum type n_out.0 n_out.1.0 r_out.0 in
    let s₂ = rooted m n in
    let S = rooted-n m n ∙ ap {A = Node} (λ x. record x { color = black; father = 0 }) M in
    let links =
      adopt_lem s₂ n l r n_out.1.0 n_out.0 (λ e. r_out.0 (sym e)) (ap (λ x. x.l_child) S)
        (ap (λ x. x.r_child) S) le re in
    let free_l : l ≢ r = λ e. r_out.0 (sym e) in
    let last = adopted s₂ n l r in
    let N = adopted-p s₂ n l r n_out.1.0 n_out.0 free_l ∙ S in
    let L : last l ≡ record (m l) { father = n } =
      adopted-l s₂ n l r n_out.1.0 n_out.0 free_l
      ∙ ap {A = Node} (λ x. record x { father = n }) (rooted-other m n l n_out.1.0) in
    let R : last r ≡ record (m r) { father = n } =
      adopted-r s₂ n l r n_out.1.0 n_out.0 free_l
      ∙ ap {A = Node} (λ x. record x { father = n }) (rooted-other m n r n_out.0) in
    let l_nil = made-l t.nodes n r l key datum type n_out.0 n_out.1.0 r_out.0 in
    let r_nil = made-r t.nodes n r l key datum type n_out.0 n_out.1.0 r_out.0 in
    rw (rbtree_insert-at_root rounds t n r l key datum type m c no_root run ne links) (
      returns (
        refl,
        refl,
        rw (N, L, R, l_nil, r_nil)
            (ne, refl, refl, refl, refl, refl, refl, (le, refl, refl), (re, refl, refl)),
        ap (λ x. x.color) N,
        free',
      ))
