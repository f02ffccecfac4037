-- ===== src/RbTree/Insert.antt =====
-- `rbtree_insert` and its cases, of src/modules/rbtree.c. `memcpy (p, new)`, without its size, is
-- read as the copy of a node, and `n->father->left` as `n->father->l_child`.
use lidas.Base.{
  ◌>>=◌, ℕ, zero, suc, true, false, not, ◌==◌, if◌then◌else◌, Run, ok, out_of_fuel, Status, success,
  failure,
}
use lidas.RbTree.{
  red, black, is_black, Store, deref, assign, set_father, set_color, and_then, rbt_rewind,
  get_uncle, is_left, is_right, rotat_left, rotat_right, signed_ltb, Rbtree, alloc_node, free_node,
}

-- `insert_case4`
unfoldable pub insert_case4 : Store → (n : ℕ) → Run Store
insert_case4 s n = do
  x ← deref s n
  s₁ ← set_color s x.father black
  f ← deref s₁ x.father
  s₂ ← set_color s₁ f.father red
  left ← and_then (is_left s₂ n) (is_left s₂ x.father)
  if left then rotat_right s₂ f.father else rotat_left s₂ f.father

-- `insert_case3`
unfoldable pub insert_case3 : Store → (n : ℕ) → Run Store
insert_case3 s n = do
  x ← deref s n
  inner_left ← and_then (is_right s n) (is_left s x.father)
  let turn_left : Run Store = do s₁ ← rotat_left s x.father; insert_case4 s₁ (s₁ n).l_child
  let others : Run Store = do
    inner_right ← and_then (is_left s n) (is_right s x.father)
    let turn_right : Run Store = do s₁ ← rotat_right s x.father; insert_case4 s₁ (s₁ n).r_child
    if inner_right then turn_right else insert_case4 s n
  if inner_left then turn_left else others

-- `insert_case2`; `again` is `insert_case1`
unfoldable pub insert_case2 : (again : Store → ℕ → Run Store) → Store → (n : ℕ) → Run Store
insert_case2 again s n = do
  uncle ← get_uncle s n
  uncle_red ←
      and_then (ok (not (uncle == 0))) (deref s uncle >>= (λ u. ok (not (is_black u.color))))
  let recolor : Run Store = do
    x ← deref s n
    s₁ ← set_color s x.father black
    f ← deref s₁ x.father
    let above : Run Store = do
      g ← deref s₁ f.father
      let up : Run Store = do s₂ ← set_color s₁ f.father red; again s₂ f.father
      if g.father == 0 then set_color s₁ f.father black else up
    if f.father == 0 then ok s₁ else above
  if uncle_red then recolor else insert_case3 s n

-- `insert_case1`
unfoldable pub insert_case1 : (rounds : ℕ) → Store → (n : ℕ) → Run Store
insert_case1 zero s n = out_of_fuel
insert_case1 (suc rounds) s n = do
  x ← deref s n
  f ← deref s x.father
  if is_black f.color then ok s else insert_case2 (λ s' g. insert_case1 rounds s' g) s n

-- the loop of `rbtree_insert` from `p` on: the empty place for the key, or 0 if the key is there. The
-- two keys are compared as `int`s.
unfoldable pub find_place : (rounds : ℕ) → Store → (key p : ℕ) → Run ℕ
find_place zero s key p = out_of_fuel
find_place (suc rounds) s key p = deref s p >>= (λ x.
    let right = find_place rounds s key x.r_child in
    let left = find_place rounds s key x.l_child in
    if x.nil
    then ok p
    else if x.key == key
    then ok 0
    else if signed_ltb x.key key
    then right
    else left)

-- a black node with `nil` set
abbrev set_empty : Store → (p : ℕ) → Run Store
set_empty s p = assign s p (record (s p) { color = black; nil = true })

-- the new node with its two empty children
unfoldable pub make_node : (key datum type : ℕ) → Rbtree → Run (ℕ × Rbtree)
make_node key datum type t = do
  (new, t₁) ← alloc_node t
  (r, t₂) ← alloc_node t₁
  (l, t₃) ← alloc_node t₂
  let n = t₃.nodes new
  s₁ ← assign t₃.nodes new (record n {
    r_child = r;
    l_child = l;
    color = red;
    nil = false;
    type = type;
    key = key;
    datum = datum;
  })
  s₂ ← set_empty s₁ r
  s₃ ← set_empty s₂ l
  ok (new, record t₃ { nodes = s₃ })

-- the fathers of the two children of `p`
abbrev pub adopt : Store → (p : ℕ) → Run Store
adopt s p = do s₁ ← set_father s (s p).l_child p; set_father s₁ (s₁ p).r_child p

-- `rbtree_insert`
unfoldable pub rbtree_insert : (rounds : ℕ) (key datum type : ℕ) → Rbtree → Run (Status × Rbtree)
rbtree_insert rounds key datum type t = do
  (new, t₁) ← make_node key datum type t
  let at_root : Run (Status × Rbtree) = do
    s₁ ← set_color t₁.nodes new black
    s₂ ← set_father s₁ new 0
    s₃ ← adopt s₂ new
    ok (success, record t₁ { root = new; nodes = s₃ })
  let below : Run (Status × Rbtree) = do
    p ← find_place rounds t₁.nodes key t.root
    let place : Run (Status × Rbtree) = do
      let n = t₁.nodes new
      s₁ ← assign t₁.nodes p (record n { father = (t₁.nodes p).father })
      s₂ ← adopt s₁ p
      t₂ ← free_node new (record t₁ { nodes = s₂ })
      s₃ ← insert_case1 rounds t₂.nodes p
      root ← rbt_rewind rounds s₃ p
      ok (success, record t₂ { root = root; nodes = s₃ })
    if p == 0 then ok (failure, t₁) else place
  if t.root == 0 then at_root else below
