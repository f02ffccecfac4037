-- ===== src/RbTree.antt =====
-- src/modules/rbtree.c: the red-black tree that is to hold the cached pages. A node stands at an
-- address, 0 being NULL, and an access through NULL is a fault. An empty place of the tree is a node
-- of its own, with `nil` set. A key is an `int`, kept as its 32 bits. The nodes are cells of a cache
-- of src/memory.c, which keeps its two pointers in the place of `r_child` and `l_child` while a cell
-- is free. This file has the steps that insertion and deletion share, and the search.
pub mod Insert
pub mod Delete
pub mod Steps
pub mod Rotation
pub mod Fresh
pub mod Place
pub mod Graft
pub mod Inserted
pub mod Planting
pub mod Below
pub mod Ordered
pub mod Lookup
pub mod Shape
pub mod Search
pub mod Walk
mod Examples
mod Tests
use lidas.Base.{
  ◌>>=◌, ◌>>◌, ℕ, zero, suc, ◌+◌, ◌%◌, Bool, true, false, ltb, ◌==◌, if◌then◌else◌, Run, ok, fault,
  out_of_fuel,
}
use lidas.Memory.Cache.{Cache, mem_cache_alloc, mem_cache_free}

pub data Color : Type 0 where
  red : Color
  black : Color

abbrev pub is_black : Color → Bool
is_black red = false
is_black black = true

-- `struct rbtree_t`
pub record Node : Type 0 where
  pub r_child : ℕ
  pub l_child : ℕ
  pub father : ℕ
  pub color : Color
  pub nil : Bool
  pub type : ℕ
  pub key : ℕ
  pub datum : ℕ

abbrev pub Store : Type 0
Store = ℕ → Node

abbrev pub put_node : Store → ℕ → Node → Store
put_node s a n b = if a == b then n else s b

-- reading and writing through a pointer
abbrev pub deref : Store → ℕ → Run Node
deref s p = if p == 0 then fault else ok (s p)

abbrev pub assign : Store → ℕ → Node → Run Store
assign s p n = if p == 0 then fault else ok (put_node s p n)

abbrev pub set_l_child : Store → (p child : ℕ) → Run Store
set_l_child s p child = assign s p (record (s p) { l_child = child })

abbrev pub set_r_child : Store → (p child : ℕ) → Run Store
set_r_child s p child = assign s p (record (s p) { r_child = child })

abbrev pub set_father : Store → (p father : ℕ) → Run Store
set_father s p father = assign s p (record (s p) { father = father })

abbrev pub set_color : Store → (p : ℕ) → Color → Run Store
set_color s p c = assign s p (record (s p) { color = c })

-- `&&` of which the right side may fault
abbrev pub and_then : Run Bool → Run Bool → Run Bool
and_then a b = a >>= (λ x. elim x [ true ↦ b | false ↦ ok false ])

-- `rbt_rewind`
pub rbt_rewind : (rounds : ℕ) → Store → (n : ℕ) → Run ℕ
rbt_rewind zero s n = out_of_fuel
rbt_rewind (suc rounds) s n =
    deref s n
    >>= (λ x. let above = rbt_rewind rounds s x.father in if x.father == 0 then ok n else above)

-- `get_uncle`
pub get_uncle : Store → (p : ℕ) → Run ℕ
get_uncle s p = do
  n ← deref s p
  let look : Run ℕ = do
    f ← deref s n.father
    let other : Run ℕ = do
      g ← deref s f.father
      ok (if n.father == g.l_child then g.r_child else g.l_child)
    if f.father == 0 then ok 0 else other
  if n.father == 0 then ok 0 else look

-- `sibling`
pub sibling : Store → (n : ℕ) → Run ℕ
sibling s n = do
  x ← deref s n
  f ← deref s x.father
  ok (if n == f.l_child then f.r_child else f.l_child)

-- is `n` the left child, or the right child, of its father?
abbrev pub is_left : Store → (n : ℕ) → Run Bool
is_left s n = deref s n >>= (λ x. deref s x.father >>= (λ f. ok (n == f.l_child)))

abbrev pub is_right : Store → (n : ℕ) → Run Bool
is_right s n = deref s n >>= (λ x. deref s x.father >>= (λ f. ok (n == f.r_child)))

-- `r` takes the place of `p` under the father `f`
abbrev pub replace_child : Store → (f p r : ℕ) → Run Store
replace_child s f p r = do
  g ← deref s f
  s₁ ← if p == g.l_child then set_l_child s f r else set_r_child s f r
  set_father s₁ r f

-- `rotat_left`
pub rotat_left : Store → (p : ℕ) → Run Store
rotat_left s p = do
  x ← deref s p
  let r = x.r_child
  y ← deref s r
  s₁ ← set_r_child s p y.l_child
  s₂ ← set_father s₁ y.l_child p
  let f = (s₂ p).father
  s₃ ← if f == 0 then ok s₂ else replace_child s₂ f p r
  s₄ ← set_l_child s₃ r p
  s₅ ← set_father s₄ p r
  s₆ ← set_color s₅ r black
  set_color s₆ p red

-- `rotat_right`
pub rotat_right : Store → (p : ℕ) → Run Store
rotat_right s p = do
  x ← deref s p
  let r = x.l_child
  y ← deref s r
  s₁ ← set_l_child s p y.r_child
  s₂ ← set_father s₁ y.r_child p
  let f = (s₂ p).father
  s₃ ← if f == 0 then ok s₂ else replace_child s₂ f p r
  s₄ ← set_r_child s₃ r p
  s₅ ← set_father s₄ p r
  s₆ ← set_color s₅ r black
  set_color s₆ p red

-- the loop of `rbtree_search` from `p` on: the address of the node, or 0. Its `key` is unsigned, and
-- the comparison makes the key of the node unsigned too.
pub find_node : (rounds : ℕ) → Store → (key p : ℕ) → Run ℕ
find_node zero s key p = out_of_fuel
find_node (suc rounds) s key p = deref s p >>= (λ x.
    let right = find_node rounds s key x.r_child in
    let left = find_node rounds s key x.l_child in
    if x.nil then ok 0 else if key == x.key then ok p else if ltb x.key key then right else left)

abbrev pub rbt_search : ℕ
rbt_search = 0

abbrev pub rbt_del : ℕ
rbt_del = 1

-- `rbtree_search`
pub rbtree_search : (rounds : ℕ) → Store → (key h cmd : ℕ) → Run ℕ
unfolding find_node
rbtree_search rounds s key h cmd = do
  p ← find_node rounds s key h
  let result =
      if p == 0
      then 0
      else if cmd == rbt_search
      then (s p).datum
      else if cmd == rbt_del
      then p
      else 0
  ok result

-- `key > p->key` and `key < p->key` of `int`s that are kept as 32 bits
abbrev pub signed_ltb : (a b : ℕ) → Bool
signed_ltb a b = ltb ((a + 2147483648) % 4294967296) ((b + 2147483648) % 4294967296)

-- the tree, with its root, and the cache that its nodes come from
pub record Rbtree : Type 0 where
  pub root : ℕ
  pub nodes : Store
  pub pool : Cache

-- `mem_cache_alloc` of a node: both its children are NULL, and the rest is what stood there
abbrev pub alloc_node : Rbtree → Run (ℕ × Rbtree)
alloc_node t = do
  (a, pool) ← mem_cache_alloc t.pool
  let n = t.nodes a
  nodes ← assign t.nodes a (record n { r_child = 0; l_child = 0 })
  ok (a, record t { nodes = nodes; pool = pool })

-- `mem_cache_free` of a node
abbrev pub free_node : (a : ℕ) → Rbtree → Run Rbtree
free_node a t = do
  pool ← mem_cache_free a t.pool
  let n = t.nodes a
  nodes ← assign t.nodes a (record n { r_child = t.pool.at; l_child = t.pool.next })
  ok (record t { nodes = nodes; pool = pool })
