-- ===== src/RbTree/Fresh.antt =====
-- The new node of `rbtree_insert` with its two empty children, out of three free cells
use lidas.Base.{ℕ, ◌≡◌, ◌≢◌, refl, List, ◌∷◌, true, false, ok, ne→==, arith, Returns-inv}
use lidas.Memory.Cache.{Cache}
use lidas.Memory.Cache.Chain.{IsFree, mem_cache_alloc_lem}
use lidas.RbTree.{red, black, Store, put_node, Rbtree, alloc_node}
use lidas.RbTree.Shape.{Tree, Shape, NotIn, Shape-put}
use lidas.RbTree.Insert.{make_node}

-- what `alloc_node` makes of a free cell
abbrev cleared : Store → ℕ → Store
cleared s a = put_node s a (record (s a) { r_child = 0; l_child = 0 })

alloc_node_lem :
    (t : Rbtree) (x : ℕ) (xs : List ℕ)
    → IsFree t.pool (x ∷ xs)
    → (c : Cache) × (alloc_node t ≡ ok (x, record t { nodes = cleared t.nodes x; pool = c }))
      × (x ≢ 0)
      × IsFree c xs
alloc_node_lem t x xs free =
    let ((a, c), run, (same, nonnull, rest)) =
      Returns-inv (mem_cache_alloc_lem t.pool (x ∷ xs) free) in
    (c, rw (run, same, ne→== x 0 nonnull) refl, nonnull, rest)

-- the nodes once the new one at `n` is set up, with its children at `r` and `l`
pub made : Store → (n r l key datum type : ℕ) → Store
made s n r l key datum type =
    let base = cleared (cleared (cleared s n) r) l in
    let s₁ = put_node base n (record (base n) {
      r_child = r;
      l_child = l;
      color = red;
      nil = false;
      type = type;
      key = key;
      datum = datum;
    }) in
    let s₂ = put_node s₁ r (record (s₁ r) { color = black; nil = true }) in
    put_node s₂ l (record (s₂ l) { color = black; nil = true })

module _ (s : Store) (n r l key datum type : ℕ) (n-ne_r : n ≢ r) (n-ne_l : n ≢ l)
    (r-ne_l : r ≢ l) where
  pub made-n : made s n r l key datum type n ≡ record (s n) {
    r_child = r;
    l_child = l;
    color = red;
    nil = false;
    type = type;
    key = key;
    datum = datum;
  }
  unfolding made
  made-n = ground (arith, n-ne_r, n-ne_l)

  pub made-r : (made s n r l key datum type r).nil ≡ true
  unfolding made
  made-r = ground (arith, n-ne_r, r-ne_l)

  pub made-l : (made s n r l key datum type l).nil ≡ true
  unfolding made
  made-l = ground (arith, n-ne_l, r-ne_l)

  pub made-other : (a : ℕ) → n ≢ a → r ≢ a → l ≢ a → made s n r l key datum type a ≡ s a
  unfolding made
  made-other a hn hr hl = ground (arith, hn, hr, hl)

-- `make_node` takes three free cells, the first for the node, then its right and its left child.
pub make_node_lem :
    (t : Rbtree) (n r l key datum type : ℕ) (rest : List ℕ)
    → IsFree t.pool (n ∷ r ∷ l ∷ rest)
    → (c : Cache) × (make_node key datum type t
        ≡ ok (n, record t { nodes = made t.nodes n r l key datum type; pool = c }))
      × IsFree c rest
      × (n ≢ 0)
      × (r ≢ 0)
      × (l ≢ 0)
unfolding make_node made
make_node_lem t n r l key datum type rest free =
    let (c₁, run₁, hn, free₁) = alloc_node_lem t n (r ∷ l ∷ rest) free in
    let t₁ : Rbtree = record t { nodes = cleared t.nodes n; pool = c₁ } in
    let (c₂, run₂, hr, free₂) = alloc_node_lem t₁ r (l ∷ rest) free₁ in
    let t₂ : Rbtree = record t₁ { nodes = cleared t₁.nodes r; pool = c₂ } in
    let (c₃, run₃, hl, free₃) = alloc_node_lem t₂ l rest free₂ in
    (c₃, rw (run₁, run₂, run₃, ne→== n 0 hn, ne→== r 0 hr, ne→== l 0 hl) refl, free₃, hn, hr, hl)

-- A tree that has none of the three nodes stays what it is.
pub Shape-made :
    (s : Store) (n r l key datum type f : ℕ) (t : Tree)
    → NotIn n t
    → NotIn r t
    → NotIn l t
    → Shape s f t
    → Shape (made s n r l key datum type) f t
unfolding made
Shape-made s n r l key datum type f t hn hr hl h = Shape-put _ l _ f t hl (
    Shape-put _ r _ f t hr (
      Shape-put _ n _ f t hn
        (Shape-put _ l _ f t hl (Shape-put _ r _ f t hr (Shape-put s n _ f t hn h)))))
