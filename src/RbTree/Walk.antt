-- ===== src/RbTree/Walk.antt =====
-- `rbtree_ergodic` and `rbtree_stack_del` of src/modules/rbtree.c, with the stack of src/stack.c. The
-- recursive calls of `rbtree_ergodic` lack the stack; they are read with it. The stack holds the
-- addresses of keys: here that of the node stands for that of its key. `rbtree_stack_del` gives
-- `rbtree_delete` its own copy of the root.
use lidas.Base.{
  ◌>>=◌, ℕ, zero, suc, Bool, Option, List, [], ◌++◌, ◌||◌, ◌==◌, if◌then◌else◌, Run, ok,
  out_of_fuel,
}
use lidas.Stack.{Stack, stack_push, stack_pop}
use lidas.RbTree.{Store, deref, Rbtree}
use lidas.RbTree.Delete.{rbtree_delete}

-- `rbtree_ergodic`; `handler` says what the handler returns for the data of a node
unfoldable pub rbtree_ergodic :
    (rounds : ℕ) → Store → (handler : ℕ → Bool) (h : ℕ) → Option Stack → Run (Option Stack)
rbtree_ergodic zero s handler h ptr = out_of_fuel
rbtree_ergodic (suc rounds) s handler h ptr =
    let visit : Run (Option Stack) = do (pushed, ptr₁) ← stack_push ptr h; ok ptr₁
    in let below : Run (Option Stack) = do
      ptr₁ ← if handler (s h).datum then visit else ok ptr
      ptr₂ ← rbtree_ergodic rounds s handler (s h).l_child ptr₁
      rbtree_ergodic rounds s handler (s h).r_child ptr₂
      in if (h == 0) || (s h).nil then ok ptr else below

-- `rbtree_stack_del`: what goes to the cleaner, the tree and the stack
unfoldable pub rbtree_stack_del :
    (rounds : ℕ) → Option Stack → Rbtree → Run (List ℕ × Rbtree × Option Stack)
rbtree_stack_del zero stack t = out_of_fuel
rbtree_stack_del (suc rounds) stack t = do
  (k, stack₁) ← stack_pop stack
  let delete : Run (List ℕ × Rbtree × Option Stack) = do
    n ← deref t.nodes k
    (r, cleaned, t₁) ← rbtree_delete (suc rounds) n.key t
    (more, t₂, stack₂) ← rbtree_stack_del rounds stack₁ t₁
    ok (cleaned ++ more, t₂, stack₂)
  if k == 0 then ok ([], t, stack₁) else delete
