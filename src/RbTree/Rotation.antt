-- ===== src/RbTree/Rotation.antt =====
-- `rotat_left`: what becomes of the tree, and of its root
use lidas.Base.{
  append_assoc, ◌∷◌, ℕ, zero, suc, ◌≡◌, ◌≢◌, ◌∙◌, ap, refl, sym, ◌==◌, ne→==, if◌then◌else◌, ok,
  Returns, returns, out_of_fuel, ◌>>=◌,
}
use lidas.RbTree.{red, black, Node, Store, put_node, replace_child, rotat_left, rbt_rewind}
use lidas.RbTree.Shape.{
  Tree, fork, root_of, Shape, NotIn, cells, Distinct, Shape-nonnull, Shape-put, Shape-adopt,
  Outside-root, Distinct-RootApart, NotIn-root,
}
use lidas.RbTree.Steps.{
  hung, lifted, moved, finished, replace_child_lem, rotat_left-steps, finished-p, finished-r,
  finished-other, Shape-finished, moved-p, moved-other, Shape-moved, lifted-r, lifted-f,
  lifted-other, Shape-lifted,
}

-- from two nodes that are each other's father no root is reached
rbt_rewind-cycle :
    (rounds : ℕ) (s : Store) (p r : ℕ)
    → p ≢ 0
    → r ≢ 0
    → (s p).father ≡ r
    → (s r).father ≡ p
    → (rbt_rewind rounds s p ≡ out_of_fuel) × (rbt_rewind rounds s r ≡ out_of_fuel)
unfolding rbt_rewind
rbt_rewind-cycle zero s p r hp hr e1 e2 = (refl, refl)
rbt_rewind-cycle (suc n) s p r hp hr e1 e2 =
    let below = rbt_rewind-cycle n s p r hp hr e1 e2 in
    (rw (ne→== p 0 hp, e1, ne→== r 0 hr) below.1, rw (ne→== r 0 hr, e2, ne→== p 0 hp) below.0)

-- what a rotation below the father `f` leaves: the turned tree, and the father's link to it
pub record Turned (s : Store) (f p : ℕ) (t : Tree) (s' : Store) : Type 0 where
  shape : Shape s' f t
  link : s' f ≡ hung (s f) p (root_of t)
  colors : ((s' (root_of t)).color ≡ black) × ((s' p).color ≡ red)
  rest : (a : ℕ) → a ≢ f → NotIn a t → s' a ≡ s a

module _ (s : Store) (p r f k d k' d' : ℕ) (l m q : Tree)
    (h : Shape s f (fork l p k d (fork m r k' d' q)))
    (distinct : Distinct (fork l p k d (fork m r k' d' q))) where
  right : Shape s p (fork m r k' d' q)
  right = h.8

  p-ne_r : p ≢ r
  p-ne_r = distinct.1.0

  b-ne_p : root_of m ≢ p
  b-ne_p e = NotIn-root p m distinct.1.1 (sym e)

  b-ne_r : root_of m ≢ r
  b-ne_r e = NotIn-root r m distinct.5.0 (sym e)

  b-nonnull : root_of m ≢ 0
  b-nonnull = Shape-nonnull s r m right.7

  moved-father : (moved s p (root_of m) p).father ≡ f
  moved-father = rw (moved-p s p (root_of m) b-ne_p) h.2

  runs :
      rotat_left s p
      ≡ (if f == 0 then ok (moved s p (root_of m)) else replace_child (moved s p (root_of m)) f p r)
        >>= (λ s₃. ok (finished s₃ p r))
  runs = rotat_left-steps s p r (root_of m) f h.0 right.0 b-nonnull h.6 right.5 moved-father

  b_out-l : NotIn (root_of m) l
  b_out-l = Outside-root m l distinct.3.1

  b_out-q : NotIn (root_of m) q
  b_out-q = Outside-root m q distinct.5.2

  r_out-l : NotIn r l
  r_out-l = distinct.3.0

  moved-l : Shape (moved s p (root_of m)) p l
  moved-l = Shape-moved s p (root_of m) b-ne_p p l distinct.0 b_out-l h.7

  moved-q : Shape (moved s p (root_of m)) r q
  moved-q = Shape-moved s p (root_of m) b-ne_p r q distinct.1.2 b_out-q right.8

  moved-m : Shape (moved s p (root_of m)) p m
  unfolding moved
  moved-m =
      Shape-adopt (put_node s p _) r p m (Distinct-RootApart m distinct.5.4)
        (Shape-put s p _ r m distinct.1.1 right.7)

  root-father : f ≡ 0 → (finished (moved s p (root_of m)) p r r).father ≡ p
  root-father e =
      ap (λ n. n.father) (finished-r (moved s p (root_of m)) p r p-ne_r)
      ∙ ap (λ n. n.father) (moved-other s p (root_of m) b-ne_p r p-ne_r b-ne_r)
      ∙ right.2

  rewinds :
      (rounds : ℕ)
      → f ≡ 0
      → Returns
          (λ s'. (rbt_rewind rounds s' p ≡ out_of_fuel) × (rbt_rewind rounds s' r ≡ out_of_fuel))
          (rotat_left s p)
  rewinds rounds e =
      let at_p = ap (λ n. n.father) (finished-p (moved s p (root_of m)) p r p-ne_r) in
      rw (runs, e)
        (returns (
          rbt_rewind-cycle rounds (finished (moved s p (root_of m)) p r) p r h.0 right.0 at_p
            (root-father e)))

  module _ (f_nonnull : f ≢ 0) (f_out : NotIn f (fork l p k d (fork m r k' d' q))) where
    last : Store
    last = finished (lifted (moved s p (root_of m)) f p r) p r

    f-ne_r : f ≢ r
    f-ne_r = f_out.2.0

    f-ne_p : f ≢ p
    f-ne_p = f_out.0

    f-ne_b : root_of m ≢ f
    f-ne_b e = NotIn-root f m f_out.2.1 (sym e)

    kept :
        (g : ℕ) (t : Tree)
        → NotIn p t
        → NotIn r t
        → NotIn f t
        → Shape (moved s p (root_of m)) g t
        → Shape last g t
    unfolding last
    kept g t out_p out_r out_f sh =
        Shape-finished (lifted (moved s p (root_of m)) f p r) p r p-ne_r g t out_p out_r
          (Shape-lifted (moved s p (root_of m)) f p r f-ne_r g t out_f out_r sh)

    last-r : last r ≡ record (s r) { father = f; l_child = p; color = black }
    unfolding last
    last-r =
        finished-r (lifted (moved s p (root_of m)) f p r) p r p-ne_r
        ∙ ap {A = Node} (λ n. record n { l_child = p; color = black })
            (lifted-r (moved s p (root_of m)) f p r f-ne_r
              ∙ ap {A = Node} (λ n. record n { father = f })
                  (moved-other s p (root_of m) b-ne_p r p-ne_r b-ne_r))

    last-p : last p ≡ record (s p) { r_child = root_of m; father = r; color = red }
    unfolding last
    last-p =
        finished-p (lifted (moved s p (root_of m)) f p r) p r p-ne_r
        ∙ ap {A = Node} (λ n. record n { father = r; color = red })
            (lifted-other (moved s p (root_of m)) f p r f-ne_r p f-ne_p (λ e. p-ne_r (sym e))
              ∙ moved-p s p (root_of m) b-ne_p)

    last-shape : Shape last f (fork (fork l p k d m) r k' d' q)
    last-shape =
        rw (last-r, last-p)
          (
            right.0,
            right.1,
            refl,
            right.3,
            right.4,
            refl,
            right.6,
            (
              h.0,
              h.1,
              refl,
              h.3,
              h.4,
              h.5,
              refl,
              kept p l distinct.0 r_out-l f_out.1 moved-l,
              kept p m distinct.1.1 distinct.5.0 f_out.2.1 moved-m,
            ),
            kept r q distinct.1.2 distinct.5.1 f_out.2.2 moved-q,
          )

    last-f : last f ≡ hung (s f) p r
    unfolding last
    last-f =
        finished-other (lifted (moved s p (root_of m)) f p r) p r p-ne_r f (λ e. f-ne_p (sym e))
          (λ e. f-ne_r (sym e))
        ∙ lifted-f (moved s p (root_of m)) f p r f-ne_r
        ∙ ap (λ n. hung n p r) (moved-other s p (root_of m) b-ne_p f (λ e. f-ne_p (sym e)) f-ne_b)

    last-rest : (a : ℕ) → a ≢ f → NotIn a (fork (fork l p k d m) r k' d' q) → last a ≡ s a
    unfolding last
    last-rest a out_f out =
        let p-ne_a : p ≢ a = λ e. out.1.0 (sym e) in
        let r-ne_a : r ≢ a = λ e. out.0 (sym e) in
        finished-other (lifted (moved s p (root_of m)) f p r) p r p-ne_r a p-ne_a r-ne_a
        ∙ lifted-other (moved s p (root_of m)) f p r f-ne_r a (λ e. out_f (sym e)) r-ne_a
        ∙ moved-other s p (root_of m) b-ne_p a p-ne_a (λ e. NotIn-root a m out.1.2 (sym e))

    rotated : Returns (Turned s f p (fork (fork l p k d m) r k' d' q)) (rotat_left s p)
    unfolding last
    rotated =
        rw
          (
            runs,
            replace_child_lem (moved s p (root_of m)) f p r f_nonnull right.0,
            ne→== f 0 f_nonnull,
          )
          (returns (record {
            shape = last-shape;
            link = last-f;
            colors = (ap (λ n. n.color) last-r, ap (λ n. n.color) last-p);
            rest = last-rest;
          }))

-- A left rotation of a node below a father, with a right child that is not empty, returns. It gives
-- the turned tree, with the same entries in the same order, links it to the father in the place of the
-- node, makes its root black and the node red, and changes nothing outside the tree but the father.
pub rotat_left_lem :
    (s : Store) (p r f k d k' d' : ℕ) (l m q : Tree)
    → Shape s f (fork l p k d (fork m r k' d' q))
    → Distinct (fork l p k d (fork m r k' d' q))
    → f ≢ 0
    → NotIn f (fork l p k d (fork m r k' d' q))
    → Returns (Turned s f p (fork (fork l p k d m) r k' d' q)) (rotat_left s p)
      × (cells (fork (fork l p k d m) r k' d' q) ≡ cells (fork l p k d (fork m r k' d' q)))
rotat_left_lem s p r f k d k' d' l m q h distinct f_nonnull f_out = (
  rotated s p r f k d k' d' l m q h distinct f_nonnull f_out,
  append_assoc (cells l) ((p, k, d) ∷ cells m) _,
)

-- After a left rotation of the root, the old and the new root are each other's father, and
-- `rbt_rewind` reaches no root from either, however long it runs.
pub rbt_rewind-rotat_left :
    (rounds : ℕ) (s : Store) (p r k d k' d' : ℕ) (l m q : Tree)
    → Shape s 0 (fork l p k d (fork m r k' d' q))
    → Distinct (fork l p k d (fork m r k' d' q))
    → Returns
        (λ s'. (rbt_rewind rounds s' p ≡ out_of_fuel) × (rbt_rewind rounds s' r ≡ out_of_fuel))
        (rotat_left s p)
rbt_rewind-rotat_left rounds s p r k d k' d' l m q h distinct =
    rewinds s p r 0 k d k' d' l m q h distinct rounds refl
