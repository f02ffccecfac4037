-- ===== src/RbTree/Delete.antt =====
-- `rbtree_delete` and its cases, of src/modules/rbtree.c
use lidas.Base.{
  ◌>>=◌, ℕ, zero, suc, Bool, true, false, not, ◌&&◌, ◌==◌, List, [], ◌∷◌, if◌then◌else◌, Run, ok,
  out_of_fuel, Status, success, failure,
}
use lidas.RbTree.{
  red, black, is_black, Store, deref, assign, set_father, set_color, and_then, rbt_rewind, sibling,
  is_left, is_right, replace_child, rotat_left, rotat_right, rbt_del, rbtree_search, Rbtree,
  free_node,
}

-- the color of a node that a pointer names
abbrev has_color : Store → (p : ℕ) (is_black_wanted : Bool) → Run Bool
has_color s p true = deref s p >>= (λ x. ok (is_black x.color))
has_color s p false = deref s p >>= (λ x. ok (not (is_black x.color)))

-- `delete_case6`
unfoldable pub delete_case6 : Store → (n : ℕ) → Run Store
delete_case6 s n = do
  b ← sibling s n
  let p = (s n).father
  f ← deref s p
  s₁ ← assign s b (record (s b) { color = f.color })
  s₂ ← set_color s₁ p black
  left ← is_left s₂ n
  y ← deref s₂ b
  let turn_left : Run Store = do s₃ ← set_color s₂ y.r_child black; rotat_left s₃ p
  let turn_right : Run Store = do s₃ ← set_color s₂ y.l_child black; rotat_right s₃ p
  if left then turn_left else turn_right

-- `delete_case5`
unfoldable pub delete_case5 : Store → (n : ℕ) → Run Store
unfolding delete_case6
delete_case5 s n = do
  b ← sibling s n
  y ← deref s b
  let turn : Run Store = do
    inner_left ←
        and_then (is_left s n) (and_then (has_color s y.r_child true) (has_color s y.l_child false))
    let turn_right : Run Store = do
      s₁ ← set_color s b red
      s₂ ← set_color s₁ y.l_child black
      rotat_right s₂ b
    let others : Run Store = do
      inner_right ←
          and_then (is_right s n)
            (and_then (has_color s y.l_child true) (has_color s y.r_child false))
      let turn_left : Run Store = do
        s₁ ← set_color s b red
        s₂ ← set_color s₁ y.r_child black
        rotat_left s₂ b
      if inner_right then turn_left else ok s
    if inner_left then turn_right else others
  s' ← if is_black y.color then turn else ok s
  delete_case6 s' n

-- has `n` a father of the color asked for, and a black sibling with two black children?
abbrev calm : Store → (n : ℕ) (black_father : Bool) → Run Bool
calm s n black_father = do
  b ← sibling s n
  y ← deref s b
  and_then (has_color s (s n).father black_father) (
      and_then (ok (is_black y.color))
        (and_then (has_color s y.l_child true) (has_color s y.r_child true)))

-- `delete_case4`
unfoldable pub delete_case4 : Store → (n : ℕ) → Run Store
unfolding delete_case5
delete_case4 s n = do
  red_father ← calm s n false
  let swap : Run Store = do
    b ← sibling s n
    s₁ ← set_color s b red
    set_color s₁ (s₁ n).father black
  if red_father then swap else delete_case5 s n

-- `delete_case3`; `again` is `delete_case1`
unfoldable pub delete_case3 : (again : Store → ℕ → Run Store) → Store → (n : ℕ) → Run Store
unfolding delete_case4
delete_case3 again s n = do
  all_black ← calm s n true
  let up : Run Store = do b ← sibling s n; s₁ ← set_color s b red; again s₁ (s₁ n).father
  if all_black then up else delete_case4 s n

-- `delete_case2`
unfoldable pub delete_case2 : (again : Store → ℕ → Run Store) → Store → (n : ℕ) → Run Store
unfolding delete_case3
delete_case2 again s n = do
  b ← sibling s n
  y ← deref s b
  let turn : Run Store = do
    let p = (s n).father
    s₁ ← set_color s p red
    s₂ ← set_color s₁ n black
    left ← is_left s₂ n
    if left then rotat_left s₂ p else rotat_right s₂ p
  s' ← if is_black y.color then ok s else turn
  delete_case3 again s' n

-- `delete_case1`
unfoldable pub delete_case1 : (rounds : ℕ) → Store → (n : ℕ) → Run Store
unfolding delete_case2
delete_case1 zero s n = out_of_fuel
delete_case1 (suc rounds) s n = do
  x ← deref s n
  if x.father == 0 then ok s else delete_case2 (λ s' p. delete_case1 rounds s' p) s n

-- the loop that looks for the node to put in the place of the deleted one: it tests `l_child`, and
-- follows `r_child`
unfoldable pub find_replacement : (rounds : ℕ) → Store → (t : ℕ) → Run ℕ
find_replacement zero s t = out_of_fuel
find_replacement (suc rounds) s t = do
  x ← deref s t
  l ← deref s x.l_child
  let later = find_replacement rounds s x.r_child
  if l.nil then ok t else later

-- a node with two empty children becomes empty itself
unfoldable pub empty_node : (p : ℕ) → Rbtree → Run Rbtree
empty_node p t = do
  let n = t.nodes p
  s₁ ← assign t.nodes p (record n { color = black; nil = true; datum = 0 })
  t₁ ← free_node (s₁ p).l_child (record t { nodes = s₁ })
  t₂ ← free_node (t₁.nodes p).r_child t₁
  let m = t₂.nodes p
  s₂ ← assign t₂.nodes p (record m { l_child = 0; r_child = 0 })
  ok (record t₂ { nodes = s₂ })

-- the only child `c` of `p` takes its place, and `e` is the empty one
unfoldable pub splice_out : (rounds p c e : ℕ) → Rbtree → Run Rbtree
unfolding delete_case1
splice_out rounds p c e t = do
  t₁ ← free_node e t
  let s = t₁.nodes
  let f = (s p).father
  s₁ ← if f == 0 then set_father s c 0 else replace_child s f p c
  let fix : Run Store =
      if is_black (s₁ c).color then delete_case1 rounds s₁ c else set_color s₁ c black
  s₂ ← if is_black (s₁ p).color then fix else ok s₁
  t₂ ← free_node p (record t₁ { nodes = s₂ })
  root ← rbt_rewind rounds t₂.nodes c
  ok (record t₂ { root = root })

-- `rbtree_delete` from `DEL_START` on: what it gives to the cleaner, and the tree
unfoldable pub delete_from : (rounds p : ℕ) → Rbtree → Run (List ℕ × Rbtree)
unfolding empty_node splice_out find_replacement
delete_from zero p t = out_of_fuel
delete_from (suc rounds) p t = do
  x ← deref t.nodes p
  l ← deref t.nodes x.l_child
  r ← deref t.nodes x.r_child
  let both : Run (List ℕ × Rbtree) = do t' ← empty_node p t; ok (x.datum ∷ [], t')
  let only : Run (List ℕ × Rbtree) = do
    t' ←
        if l.nil
        then splice_out (suc rounds) p x.r_child x.l_child t
        else splice_out (suc rounds) p x.l_child x.r_child t
    ok (x.datum ∷ [], t')
  let inner : Run (List ℕ × Rbtree) = do
    c ← find_replacement (suc rounds) t.nodes x.l_child
    let y = t.nodes c
    s₁ ← assign t.nodes p (record x { datum = y.datum; key = y.key })
    (cleaned, t') ← delete_from rounds c (record t { nodes = s₁ })
    ok (x.datum ∷ cleaned, t')
  if l.nil && r.nil then both else if not l.nil && not r.nil then inner else only

-- `rbtree_delete`: -1 without the key, what it gives to the cleaner, and the tree
unfoldable pub rbtree_delete : (rounds key : ℕ) → Rbtree → Run (Status × List ℕ × Rbtree)
unfolding delete_from
rbtree_delete rounds key t = do
  p ← rbtree_search rounds t.nodes key t.root rbt_del
  let found : Run (Status × List ℕ × Rbtree) = do
    (cleaned, t') ← delete_from rounds p t
    ok (success, cleaned, t')
  if p == 0 then ok (failure, [], t) else found
