-- ===== src/RbTree/Planting.antt =====
-- The nodes after each step of `rbtree_insert` below a node: the new entry is planted in its place
use lidas.Base.{ℕ, ◌≡◌, ◌≢◌, sym, ap, ◌∙◌, false, ok}
use lidas.Memory.Cache.{Cache}
use lidas.RbTree.{red, Node, Store, put_node}
use lidas.RbTree.Shape.{put_node-other, put_node_self}
use lidas.RbTree.Insert.{adopt}
use lidas.RbTree.Fresh.{made, made-n, made-r, made-l, made-other}
use lidas.RbTree.Inserted.{adopted, adopt_lem, adopted-p, adopted-l, adopted-r, adopted-other}
use lidas.RbTree.Graft.{Planted}

-- the nodes once the new one at `n` is copied to `p`
unfoldable pub copied : Store → (n p : ℕ) → Store
copied s n p = put_node s p (record (s n) { father = (s p).father })

-- the nodes once that at `n` is a free cell of `c` again
unfoldable pub given_up : Store → ℕ → Cache → Store
given_up s n c = put_node s n (record (s n) { r_child = c.at; l_child = c.next })

-- The steps in a tree: the new entry is planted in its place.
module _ (s : Store) (n r l p key datum type : ℕ) (c : Cache) (n-ne_r : n ≢ r) (n-ne_l : n ≢ l)
    (r-ne_l : r ≢ l) (n-ne_p : n ≢ p) (r-ne_p : r ≢ p) (l-ne_p : l ≢ p) where
  unfoldable pub m : Store
  m = made s n r l key datum type

  p-ne_l : p ≢ l
  p-ne_l e = l-ne_p (sym e)

  p-ne_r : p ≢ r
  p-ne_r e = r-ne_p (sym e)

  l-ne_r : l ≢ r
  l-ne_r e = r-ne_l (sym e)

  unfoldable pub last : Store
  last = given_up (adopted (copied m n p) p l r) n c

  copied-p : copied m n p p ≡ record (s n) {
    r_child = r;
    l_child = l;
    color = red;
    nil = false;
    type = type;
    key = key;
    datum = datum;
    father = (s p).father;
  }
  unfolding copied m
  copied-p =
      put_node_self (made s n r l key datum type) p _
      ∙ ap {A = Node} (λ x. record x { father = (made s n r l key datum type p).father })
          (made-n s n r l key datum type n-ne_r n-ne_l r-ne_l)
      ∙ ap {A = Node}
          (λ x. record (s n) {
            r_child = r;
            l_child = l;
            color = red;
            nil = false;
            type = type;
            key = key;
            datum = datum;
            father = x.father;
          })
          (made-other s n r l key datum type n-ne_r n-ne_l r-ne_l p n-ne_p r-ne_p l-ne_p)

  copied-other : (a : ℕ) → p ≢ a → copied m n p a ≡ m a
  unfolding copied
  copied-other a h = put_node-other m p _ a h

  last-other : (a : ℕ) → n ≢ a → last a ≡ adopted (copied m n p) p l r a
  unfolding last given_up
  last-other a h = put_node-other (adopted (copied m n p) p l r) n _ a h

  last-p : last p ≡ copied m n p p
  last-p = last-other p n-ne_p ∙ adopted-p (copied m n p) p l r p-ne_l p-ne_r l-ne_r

  last-l : last l ≡ record (m l) { father = p }
  last-l =
      last-other l n-ne_l
      ∙ adopted-l (copied m n p) p l r p-ne_l p-ne_r l-ne_r
      ∙ ap {A = Node} (λ x. record x { father = p }) (copied-other l p-ne_l)

  last-r : last r ≡ record (m r) { father = p }
  last-r =
      last-other r n-ne_r
      ∙ adopted-r (copied m n p) p l r p-ne_l p-ne_r l-ne_r
      ∙ ap {A = Node} (λ x. record x { father = p }) (copied-other r p-ne_r)

  last-rest : (a : ℕ) → p ≢ a → l ≢ a → r ≢ a → n ≢ a → last a ≡ s a
  unfolding m
  last-rest a hp hl hr hn =
      last-other a hn
      ∙ adopted-other (copied m n p) p l r p-ne_l p-ne_r l-ne_r a hl hr
      ∙ copied-other a hp
      ∙ made-other s n r l key datum type n-ne_r n-ne_l r-ne_l a hn hr hl

  pub last-Planted : l ≢ 0 → r ≢ 0 → Planted s last p l r n key datum
  unfolding m
  last-Planted hl hr =
      let P = last-p ∙ copied-p in
      record {
        nil = ap (λ x. x.nil) P;
        father = ap (λ x. x.father) P;
        at_key = ap (λ x. x.key) P;
        at_datum = ap (λ x. x.datum) P;
        l_child = ap (λ x. x.l_child) P;
        r_child = ap (λ x. x.r_child) P;
        left = (
          hl,
          ap (λ x. x.nil) last-l ∙ made-l s n r l key datum type n-ne_r n-ne_l r-ne_l,
          ap (λ x. x.father) last-l,
        );
        right = (
          hr,
          ap (λ x. x.nil) last-r ∙ made-r s n r l key datum type n-ne_r n-ne_l r-ne_l,
          ap (λ x. x.father) last-r,
        );
        other = last-rest;
      }

  -- the colour and the type of the new entry
  pub last-new : ((last p).color ≡ red) × ((last p).type ≡ type)
  last-new = let P = last-p ∙ copied-p in (ap (λ x. x.color) P, ap (λ x. x.type) P)

  pub copied-links : l ≢ 0 → r ≢ 0 → adopt (copied m n p) p ≡ ok (adopted (copied m n p) p l r)
  copied-links hl hr =
      adopt_lem (copied m n p) p l r p-ne_l p-ne_r l-ne_r (ap (λ x. x.l_child) copied-p)
        (ap (λ x. x.r_child) copied-p) hl hr
