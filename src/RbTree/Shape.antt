-- ===== src/RbTree/Shape.antt =====
-- The tree that the nodes of src/modules/rbtree.c stand for, with its addresses
use lidas.Base.{ℕ, ◌≡◌, ◌≢◌, refl, true, false, List, [], ◌∷◌, ◌++◌, arith}
use lidas.RbTree.{Node, Store, put_node}

pub data Tree : Type 0 where
  tip : (at : ℕ) → Tree
  fork : Tree → (at key datum : ℕ) → Tree → Tree

abbrev pub root_of : Tree → ℕ
root_of (tip a) = a
root_of (fork l a k d r) = a

-- From the root on, below the father `f`, the nodes of `s` are linked as the tree says.
abbrev pub Shape : Store → (f : ℕ) → Tree → Type 0
Shape s f (tip a) = (a ≢ 0) × ((s a).nil ≡ true) × ((s a).father ≡ f)
Shape s f (fork l a k d r) =
    (a ≢ 0)
    × ((s a).nil ≡ false)
    × ((s a).father ≡ f)
    × ((s a).key ≡ k)
    × ((s a).datum ≡ d)
    × ((s a).l_child ≡ root_of l)
    × ((s a).r_child ≡ root_of r)
    × Shape s a l
    × Shape s a r

abbrev pub NotIn : ℕ → Tree → Type 0
NotIn b (tip a) = b ≢ a
NotIn b (fork l a k d r) = (b ≢ a) × NotIn b l × NotIn b r

-- the root is not one of its own descendants
abbrev pub RootApart : Tree → Type 0
RootApart (tip a) = Unit
RootApart (fork l a k d r) = NotIn a l × NotIn a r

-- a node of a tree: its address, its key and its data
abbrev pub Cell : Type 0
Cell = ℕ × ℕ × ℕ

-- the nodes in the order of the tree
abbrev pub cells : Tree → List Cell
cells (tip a) = []
cells (fork l a k d r) = cells l ++ ((a, k, d) ∷ cells r)

pub put_node-other : (s : Store) (a : ℕ) (n : Node) (b : ℕ) → a ≢ b → put_node s a n b ≡ s b
put_node-other s a n b h = ground (arith, h)

pub put_node_self : (s : Store) (a : ℕ) (n : Node) → put_node s a n a ≡ n
put_node_self s a n = ground arith

pub Shape-nonnull : (s : Store) (f : ℕ) (t : Tree) → Shape s f t → root_of t ≢ 0
Shape-nonnull s f (tip a) h = h.0
Shape-nonnull s f (fork l a k d r) h = h.0

-- A tree stays what it is when nodes outside it change.
pub Shape-put :
    (s : Store) (a : ℕ) (n : Node) (f : ℕ) (t : Tree)
    → NotIn a t
    → Shape s f t
    → Shape (put_node s a n) f t
Shape-put s a n f (tip b) out h = rw (put_node-other s a n b out) h
Shape-put s a n f (fork l b k d r) out h = rw (put_node-other s a n b out.0) (
  h.0,
  h.1,
  h.2,
  h.3,
  h.4,
  h.5,
  h.6,
  Shape-put s a n b l out.1 h.7,
  Shape-put s a n b r out.2 h.8,
)

-- A new father for the root makes the tree stand below it.
pub Shape-adopt :
    (s : Store) (f g : ℕ) (t : Tree)
    → RootApart t
    → Shape s f t
    → let a = root_of t in Shape (put_node s a (record (s a) { father = g })) g t
Shape-adopt s f g (tip a) apart h =
    rw (put_node_self s a (record (s a) { father = g })) (h.0, h.1, refl)
Shape-adopt s f g (fork l a k d r) apart h =
    let n = record (s a) { father = g } in
    rw (put_node_self s a n) (
      h.0,
      h.1,
      refl,
      h.3,
      h.4,
      h.5,
      h.6,
      Shape-put s a n a l apart.0 h.7,
      Shape-put s a n a r apart.1 h.8,
    )

-- every node of the first tree is outside the second
abbrev pub Outside : Tree → Tree → Type 0
Outside (tip a) u = NotIn a u
Outside (fork l a k d r) u = NotIn a u × Outside l u × Outside r u

-- no address stands twice in the tree
abbrev pub Distinct : Tree → Type 0
Distinct (tip a) = Unit
Distinct (fork l a k d r) =
    NotIn a l × NotIn a r × Outside l r × Outside r l × Distinct l × Distinct r

pub Outside-root : (t u : Tree) → Outside t u → NotIn (root_of t) u
Outside-root (tip a) u h = h
Outside-root (fork l a k d r) u h = h.0

pub Distinct-RootApart : (t : Tree) → Distinct t → RootApart t
Distinct-RootApart (tip a) h = tt
Distinct-RootApart (fork l a k d r) h = (h.0, h.1)

pub NotIn-root : (a : ℕ) (t : Tree) → NotIn a t → a ≢ root_of t
NotIn-root a (tip b) h = h
NotIn-root a (fork l b k d r) h = h.0
