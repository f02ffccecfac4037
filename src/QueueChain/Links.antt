-- ===== src/QueueChain/Links.antt =====
-- The list of nodes that a linked queue of src/queue_chain.c stands for
use lidas.Base.{ℕ, ◌≡◌, sym, ◌∙◌, ◌≢◌, List, [], ◌∷◌, arith, length}
use lidas.QueueChain.{Node, Control, put_node}

-- a node's address and its data
abbrev pub Item : Type 0
Item = ℕ × ℕ

abbrev pub NotAt : ℕ → List Item → Type 0
NotAt a [] = Unit
NotAt a (x ∷ xs) = (a ≢ x.0) × NotAt a xs

-- From `p`, behind `prev`, the nodes `xs` are linked both ways up to `head`.
abbrev pub Links : (ℕ → Node) → (prev p : ℕ) → List Item → (head : ℕ) → Type 0
Links nodes prev p [] head = (p ≡ 0) × (head ≡ prev)
Links nodes prev p (x ∷ xs) head =
    (p ≡ x.0)
    × (x.0 ≢ 0)
    × NotAt x.0 xs
    × ((nodes x.0).prev ≡ prev)
    × ((nodes x.0).datum ≡ x.1)
    × Links nodes x.0 (nodes x.0).next xs head

pub record Holds (c : Control) (xs : List Item) : Type 0 where
  pub links : Links c.nodes 0 c.tail xs c.head
  pub number : c.cnt ≡ length xs

put_node-other :
    (nodes : ℕ → Node) (a : ℕ) (n : Node) (b : ℕ) → a ≢ b → put_node nodes a n b ≡ nodes b
put_node-other nodes a n b h = ground (arith, h)

pub put_node_self : (nodes : ℕ → Node) (a : ℕ) (n : Node) → put_node nodes a n a ≡ n
put_node_self nodes a n = ground arith

pub Links-put :
    (nodes : ℕ → Node) (a : ℕ) (n : Node) (prev p : ℕ) (xs : List Item) (head : ℕ)
    → NotAt a xs
    → Links nodes prev p xs head
    → Links (put_node nodes a n) prev p xs head
Links-put nodes a n prev p [] head new l = l
Links-put nodes a n prev p (x ∷ xs) head new l =
    rw (put_node-other nodes a n x.0 new.0)
      (l.0, l.1, l.2, l.3, l.4, Links-put nodes a n x.0 (nodes x.0).next xs head new.1 l.5)

-- The last node is the one before which the list ends, or one of the nodes.
pub head-among :
    (nodes : ℕ → Node) (prev p : ℕ) (xs : List Item) (head b : ℕ)
    → Links nodes prev p xs head
    → b ≢ prev
    → NotAt b xs
    → b ≢ head
head-among nodes prev p [] head b l h n = λ e. h (e ∙ l.1)
head-among nodes prev p (x ∷ xs) head b l h n =
    head-among nodes x.0 (nodes x.0).next xs head b l.5 n.0 n.1

pub head-nonnull :
    (nodes : ℕ → Node) (prev p : ℕ) (x : Item) (xs : List Item) (head : ℕ)
    → Links nodes prev p (x ∷ xs) head
    → head ≢ 0
head-nonnull nodes prev p x [] head l = λ e. l.1 (sym l.5.1 ∙ e)
head-nonnull nodes prev p x (y ∷ ys) head l = head-nonnull nodes x.0 (nodes x.0).next y ys head l.5
