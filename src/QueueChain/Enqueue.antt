-- ===== src/QueueChain/Enqueue.antt =====
-- `queue_chain_in` (src/queue_chain.c) appends a node.
use lidas.Base.{
  ℕ, ◌≡◌, refl, sym, ap, ◌∙◌, ◌≢◌, List, [], ◌∷◌, ◌++◌, arith, ne→==, length-append, Returns,
  returns,
}
use lidas.QueueChain.{Node, Control, put_node, queue_chain_in}
use lidas.QueueChain.Links.{Item, NotAt, Links, Holds, put_node_self, head-among, head-nonnull}

NotAt-append : (a : ℕ) (xs : List Item) (x : Item) → NotAt a xs → a ≢ x.0 → NotAt a (xs ++ (x ∷ []))
NotAt-append a [] x h n = (n, tt)
NotAt-append a (y ∷ ys) x h n = (h.0, NotAt-append a ys x h.1 n)

-- the nodes with the one at `p` linked behind `head`
abbrev linked : (ℕ → Node) → (head p datum : ℕ) → ℕ → Node
linked nodes head p datum =
    let new = put_node nodes p (record { prev = head; next = 0; datum = datum }) in
    put_node new head (record (new head) { next = p })

linked-other :
    (nodes : ℕ → Node) (head p datum b : ℕ)
    → p ≢ b
    → head ≢ b
    → linked nodes head p datum b ≡ nodes b
linked-other nodes head p datum b m n = ground (arith, m, n)

linked-new :
    (nodes : ℕ → Node) (head p datum : ℕ)
    → head ≢ p
    → linked nodes head p datum p ≡ record { prev = head; next = 0; datum = datum }
linked-new nodes head p datum h = ground (arith, h)

linked-head :
    (nodes : ℕ → Node) (head p datum : ℕ)
    → p ≢ head
    → linked nodes head p datum head ≡ record (nodes head) { next = p }
linked-head nodes head p datum h = ground (arith, h)

linked-Links :
    (nodes : ℕ → Node) (prev q : ℕ) (x : Item) (xs : List Item) (head p datum : ℕ)
    → Links nodes prev q (x ∷ xs) head
    → p ≢ 0
    → NotAt p (x ∷ xs)
    → Links (linked nodes head p datum) prev q ((x ∷ xs) ++ ((p, datum) ∷ [])) p
linked-Links nodes prev q x [] head p datum l nonnull new =
    let here : head ≡ x.0 = l.5.1 in
    let apart : head ≢ p = λ e. new.0 (sym e ∙ here) in
    let last = linked-new nodes head p datum apart in
    let before : linked nodes head p datum x.0 ≡ record (nodes x.0) { next = p } =
      rw (sym here) (linked-head nodes head p datum (λ e. apart (sym e))) in
    rw before (
      l.0,
      l.1,
      ((λ e. new.0 (sym e)), tt),
      l.3,
      l.4,
      (
        refl,
        nonnull,
        tt,
        ap (λ n. n.prev) last ∙ here,
        ap (λ n. n.datum) last,
        (ap (λ n. n.next) last, refl),
      ),
    )
linked-Links nodes prev q x (y ∷ ys) head p datum l nonnull new =
    let apart : x.0 ≢ head = head-among nodes y.0 (nodes y.0).next ys head x.0 l.5.5 l.2.0 l.2.1 in
    let same = linked-other nodes head p datum x.0 new.0 (λ e. apart (sym e)) in
    rw same (
      l.0,
      l.1,
      NotAt-append x.0 (y ∷ ys) (p, datum) l.2 (λ e. new.0 (sym e)),
      l.3,
      l.4,
      linked-Links nodes x.0 (nodes x.0).next y ys head p datum l.5 nonnull new.1,
    )

-- `queue_chain_in` of a first node, whatever `cnt` was
pub queue_chain_in-first :
    (c : Control) (p datum : ℕ)
    → c.head ≡ 0
    → p ≢ 0
    → Returns (λ c'. Holds c' ((p, datum) ∷ [])) (queue_chain_in p datum c)
unfolding queue_chain_in
queue_chain_in-first c p datum empty nonnull =
    rw (ne→== _ _ nonnull, empty)
      (returns (record {
        links =
            rw (put_node_self c.nodes p (record { prev = 0; next = 0; datum = datum }))
              (refl, nonnull, tt, refl, refl, (refl, refl));
        number = refl;
      }))

-- `queue_chain_in` of a node at a new address appends it to the queue.
pub queue_chain_in-appends :
    (c : Control) (xs : List Item) (p datum : ℕ)
    → Holds c xs
    → p ≢ 0
    → NotAt p xs
    → Returns (λ c'. Holds c' (xs ++ ((p, datum) ∷ []))) (queue_chain_in p datum c)
unfolding queue_chain_in
queue_chain_in-appends c [] p datum h nonnull new = queue_chain_in-first c p datum h.links.1 nonnull
queue_chain_in-appends c (x ∷ xs) p datum h nonnull new =
    let real = head-nonnull c.nodes 0 c.tail x xs c.head h.links in
    rw (ne→== _ _ nonnull, ne→== _ _ real)
      (returns (record {
        links = linked-Links c.nodes 0 c.tail x xs c.head p datum h.links nonnull new;
        number = omega (arith, h.number, length-append (x ∷ xs) ((p, datum) ∷ []));
      }))
