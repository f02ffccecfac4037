-- ===== src/RbTree/Steps.antt =====
-- The steps of `rotat_left` and the nodes that each leaves
use lidas.Base.{
  Bool-cases, inl, inr, ℕ, ◌≡◌, ◌≢◌, refl, arith, ◌==◌, ne→==, if◌then◌else◌, ok, ◌>>=◌,
}
use lidas.RbTree.{red, black, Node, Store, put_node, replace_child, rotat_left}
use lidas.RbTree.Shape.{Tree, Shape, NotIn, Shape-put}

-- the father's node once `r` stands for `p` below it
abbrev pub hung : Node → (p r : ℕ) → Node
hung g p r = if p == g.l_child then record g { l_child = r } else record g { r_child = r }

-- the nodes once `r` stands for `p` below `f`
pub lifted : Store → (f p r : ℕ) → Store
lifted s f p r =
    let s₁ = put_node s f (hung (s f) p r) in put_node s₁ r (record (s₁ r) { father = f })

pub replace_child_lem :
    (s : Store) (f p r : ℕ) → f ≢ 0 → r ≢ 0 → replace_child s f p r ≡ ok (lifted s f p r)
unfolding lifted
replace_child_lem s f p r hf hr =
    rw (ne→== f 0 hf, ne→== r 0 hr)
      (elim (Bool-cases (p == (s f).l_child)) [ inl l ↦ rw l refl | inr o ↦ rw o refl ])

-- the nodes once the inner tree at `b` hangs on `p`
unfoldable pub moved : Store → (p b : ℕ) → Store
moved s p b =
    let s₁ = put_node s p (record (s p) { r_child = b }) in
    put_node s₁ b (record (s₁ b) { father = p })

-- the nodes once `p` hangs on `r`, both with their new colors
pub finished : Store → (p r : ℕ) → Store
finished s p r =
    let s₁ = put_node s r (record (s r) { l_child = p }) in
    let s₂ = put_node s₁ p (record (s₁ p) { father = r }) in
    let s₃ = put_node s₂ r (record (s₂ r) { color = black }) in
    put_node s₃ p (record (s₃ p) { color = red })

pub rotat_left-steps :
    (s : Store) (p r b f : ℕ)
    → p ≢ 0
    → r ≢ 0
    → b ≢ 0
    → (s p).r_child ≡ r
    → (s r).l_child ≡ b
    → (moved s p b p).father ≡ f
    → rotat_left s p
      ≡ (if f == 0 then ok (moved s p b) else replace_child (moved s p b) f p r)
        >>= (λ s₃. ok (finished s₃ p r))
unfolding rotat_left moved finished
rotat_left-steps s p r b f hp hr hb e1 e2 e3 =
    rw (ne→== p 0 hp, e1, ne→== r 0 hr, e2, ne→== b 0 hb, e3) refl

module _ (s : Store) (p r : ℕ) (apart : p ≢ r) where
  pub finished-p : finished s p r p ≡ record (s p) { father = r; color = red }
  unfolding finished
  finished-p = ground (arith, apart)

  pub finished-r : finished s p r r ≡ record (s r) { l_child = p; color = black }
  unfolding finished
  finished-r = ground (arith, apart)

  pub finished-other : (a : ℕ) → p ≢ a → r ≢ a → finished s p r a ≡ s a
  unfolding finished
  finished-other a hp hr = ground (arith, hp, hr)

  pub Shape-finished :
      (f : ℕ) (t : Tree) → NotIn p t → NotIn r t → Shape s f t → Shape (finished s p r) f t
  unfolding finished
  Shape-finished f t out_p out_r h =
      Shape-put _ p _ f t out_p
        (Shape-put _ r _ f t out_r (Shape-put _ p _ f t out_p (Shape-put s r _ f t out_r h)))

module _ (s : Store) (p b : ℕ) (apart : b ≢ p) where
  pub moved-p : moved s p b p ≡ record (s p) { r_child = b }
  unfolding moved
  moved-p = ground (arith, apart)

  pub moved-other : (a : ℕ) → p ≢ a → b ≢ a → moved s p b a ≡ s a
  unfolding moved
  moved-other a hp hb = ground (arith, hp, hb)

  pub Shape-moved :
      (f : ℕ) (t : Tree) → NotIn p t → NotIn b t → Shape s f t → Shape (moved s p b) f t
  unfolding moved
  Shape-moved f t out_p out_b h = Shape-put _ b _ f t out_b (Shape-put s p _ f t out_p h)

module _ (s : Store) (f p r : ℕ) (apart : f ≢ r) where
  pub lifted-r : lifted s f p r r ≡ record (s r) { father = f }
  unfolding lifted
  lifted-r = ground (arith, apart)

  pub lifted-f : lifted s f p r f ≡ hung (s f) p r
  unfolding lifted
  lifted-f = ground (arith, apart)

  pub lifted-other : (a : ℕ) → f ≢ a → r ≢ a → lifted s f p r a ≡ s a
  unfolding lifted
  lifted-other a hf hr = ground (arith, hf, hr)

  pub Shape-lifted :
      (g : ℕ) (t : Tree) → NotIn f t → NotIn r t → Shape s g t → Shape (lifted s f p r) g t
  unfolding lifted
  Shape-lifted g t out_f out_r h = Shape-put _ r _ g t out_r (Shape-put s f _ g t out_f h)
