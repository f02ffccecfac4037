-- ===== src/RbTree/Graft.antt =====
-- A new entry in an empty place of the tree, and the way back to its root
use lidas.Base.{
  ℕ, suc, ◌+◌, ◌-◌, ◌<◌, ◌≤◌, ◌≡◌, ◌≢◌, refl, sym, ap, ◌∙◌, false, ok, ne→==, if◌then◌else◌, arith,
  inl, inr, Bool-cases,
}
use mathlib.Core.Path.{subst}
use lidas.RbTree.{Store, rbt_rewind, signed_ltb}
use lidas.RbTree.Shape.{Tree, tip, fork, root_of, Shape, NotIn, Distinct, Shape-nonnull}
use lidas.RbTree.Search.{height}
use lidas.RbTree.Place.{place, above, grafted, way, place-ne, place-Outside}

-- The nodes of `s'` are those of `s`, but for a new entry at `p` with two empty children, and a node
-- given up at `n`.
pub record Planted (s s' : Store) (p lt rt n key datum : ℕ) : Type 0 where
  pub nil : (s' p).nil ≡ false
  pub father : (s' p).father ≡ (s p).father
  pub at_key : (s' p).key ≡ key
  pub at_datum : (s' p).datum ≡ datum
  pub l_child : (s' p).l_child ≡ lt
  pub r_child : (s' p).r_child ≡ rt
  pub left : Shape s' p (tip lt)
  pub right : Shape s' p (tip rt)
  pub other : (a : ℕ) → p ≢ a → lt ≢ a → rt ≢ a → n ≢ a → s' a ≡ s a

pub root_of-grafted :
    (key datum lt rt : ℕ) (t : Tree) → root_of (grafted key datum lt rt t) ≡ root_of t
root_of-grafted key datum lt rt (tip a) = refl
root_of-grafted key datum lt rt (fork l a k d r) = elim (Bool-cases (signed_ltb k key)) [
  | inl up ↦ rw up refl
  | inr down ↦ rw down refl
]

module _ {s s' : Store} {p lt rt n key datum : ℕ} (planted : Planted s s' p lt rt n key datum) where
  Shape-other :
      (f : ℕ) (t : Tree)
      → NotIn p t
      → NotIn lt t
      → NotIn rt t
      → NotIn n t
      → Shape s f t
      → Shape s' f t
  Shape-other f (tip a) hp hl hr hn h = rw (planted.other a hp hl hr hn) h
  Shape-other f (fork l a k d r) hp hl hr hn h = rw (planted.other a hp.0 hl.0 hr.0 hn.0) (
    h.0,
    h.1,
    h.2,
    h.3,
    h.4,
    h.5,
    h.6,
    Shape-other a l hp.1 hl.1 hr.1 hn.1 h.7,
    Shape-other a r hp.2 hl.2 hr.2 hn.2 h.8,
  )

  pub Shape-grafted :
      (f : ℕ) (t : Tree)
      → Shape s f t
      → Distinct t
      → NotIn lt t
      → NotIn rt t
      → NotIn n t
      → place key t ≡ p
      → p ≢ 0
      → Shape s' f (grafted key datum lt rt t)
  Shape-grafted f (tip a) h distinct hl hr hn e nonnull = rw e (
    nonnull,
    planted.nil,
    planted.father ∙ rw⁻¹ e h.2,
    planted.at_key,
    planted.at_datum,
    planted.l_child,
    planted.r_child,
    planted.left,
    planted.right,
  )
  Shape-grafted f (fork l a k d r) h distinct hl hr hn e nonnull =
      elim (way key p l a k d r e nonnull) [
        | inl (up, e') ↦
            let same =
              planted.other a (λ q. place-ne key a p r distinct.1 e' nonnull (sym q)) hl.0 hr.0
                hn.0 in
            rw (up, same)
              (
                h.0,
                h.1,
                h.2,
                h.3,
                h.4,
                h.5,
                h.6 ∙ sym (root_of-grafted key datum lt rt r),
                Shape-other a l (place-Outside key p r l distinct.3 e' nonnull) hl.1 hr.1 hn.1 h.7,
                Shape-grafted a r h.8 distinct.5 hl.2 hr.2 hn.2 e' nonnull,
              )
        | inr (down, e') ↦
            let same =
              planted.other a (λ q. place-ne key a p l distinct.0 e' nonnull (sym q)) hl.0 hr.0
                hn.0 in
            rw (down, same)
              (
                h.0,
                h.1,
                h.2,
                h.3,
                h.4,
                h.5 ∙ sym (root_of-grafted key datum lt rt l),
                h.6,
                Shape-grafted a l h.7 distinct.4 hl.1 hr.1 hn.1 e' nonnull,
                Shape-other a r (place-Outside key p l r distinct.2 e' nonnull) hl.2 hr.2 hn.2 h.8,
              )
      ]

-- the length of the way for the key
abbrev pub depth : (key : ℕ) → Tree → ℕ
depth key (tip a) = 0
depth key (fork l a k d r) =
    let right = depth key r in
    let left = depth key l in suc (if signed_ltb k key then right else left)

-- one step up
rewind-step :
    (n : ℕ) (s : Store) (x a : ℕ)
    → x ≢ 0
    → (s x).father ≡ a
    → a ≢ 0
    → rbt_rewind (suc n) s x ≡ rbt_rewind n s a
unfolding rbt_rewind
rewind-step n s x a hx e ha = rw (ne→== x 0 hx, e, ne→== a 0 ha) refl

Shape-father : (s : Store) (f : ℕ) (t : Tree) → Shape s f t → (s (root_of t)).father ≡ f
Shape-father s f (tip a) h = h.2
Shape-father s f (fork l a k d r) h = h.2

-- one step up from the root of a subtree
rewind-child :
    (m : ℕ) (s : Store) (key datum lt rt a : ℕ) (t : Tree)
    → Shape s a (grafted key datum lt rt t)
    → a ≢ 0
    → rbt_rewind (suc m) s (root_of t) ≡ rbt_rewind m s a
rewind-child m s key datum lt rt a t h ha =
    let same = root_of-grafted key datum lt rt t in
    rewind-step m s (root_of t) a (rw⁻¹ same (Shape-nonnull s a (grafted key datum lt rt t) h))
      (rw⁻¹ same (Shape-father s a (grafted key datum lt rt t) h)) ha

-- from the place of a key the way leads back to the root of the tree
rewind-up :
    (m : ℕ) (s : Store) (key datum lt rt p f : ℕ) (t : Tree)
    → Shape s f (grafted key datum lt rt t)
    → place key t ≡ p
    → p ≢ 0
    → rbt_rewind (depth key t + m) s p ≡ rbt_rewind m s (root_of t)
rewind-up m s key datum lt rt p f (tip a) h e nonnull =
    let none_left : 0 + m ≡ m = omega arith in rw (none_left, e) refl
rewind-up m s key datum lt rt p f (fork l a k d r) h e nonnull =
    elim (way key p l a k d r e nonnull) [
      | inl (up, e') ↦
          let turned : grafted key datum lt rt (fork l a k d r)
              ≡ fork l a k d (grafted key datum lt rt r) =
            rw up refl in
          let h' : Shape s f (fork l a k d (grafted key datum lt rt r)) =
            subst (Shape s f) turned h in
          let further : suc (depth key r) + m ≡ depth key r + suc m = omega arith in
          rw (up, further)
            (rewind-up (suc m) s key datum lt rt p a r h'.8 e' nonnull
              ∙ rewind-child m s key datum lt rt a r h'.8 h'.0)
      | inr (down, e') ↦
          let turned : grafted key datum lt rt (fork l a k d r)
              ≡ fork (grafted key datum lt rt l) a k d r =
            rw down refl in
          let h' : Shape s f (fork (grafted key datum lt rt l) a k d r) =
            subst (Shape s f) turned h in
          let further : suc (depth key l) + m ≡ depth key l + suc m = omega arith in
          rw (down, further)
            (rewind-up (suc m) s key datum lt rt p a l h'.7 e' nonnull
              ∙ rewind-child m s key datum lt rt a l h'.7 h'.0)
    ]

depth-le_height : (key : ℕ) (t : Tree) → depth key t ≤ height t
depth-le_height key (tip a) = omega arith
depth-le_height key (fork l a k d r) =
    let left = depth-le_height key l in
    let right = depth-le_height key r in ground (arith, left, right)

-- With more rounds than the tree is high, `rbt_rewind` comes from the new entry to the root.
pub rbt_rewind-grafted :
    (rounds : ℕ) (s : Store) (key datum lt rt p : ℕ) (t : Tree)
    → Shape s 0 (grafted key datum lt rt t)
    → place key t ≡ p
    → p ≢ 0
    → height t < rounds
    → rbt_rewind rounds s p ≡ ok (root_of t)
unfolding rbt_rewind
rbt_rewind-grafted rounds s key datum lt rt p t h e nonnull enough =
    let le = depth-le_height key t in
    let split : rounds ≡ depth key t + suc (rounds - depth key t - 1) = omega (arith, le, enough) in
    let same = root_of-grafted key datum lt rt t in
    let hr : root_of t ≢ 0 = rw⁻¹ same (Shape-nonnull s 0 (grafted key datum lt rt t) h) in
    let hf : (s (root_of t)).father ≡ 0 =
      rw⁻¹ same (Shape-father s 0 (grafted key datum lt rt t) h) in
    ap (λ n. rbt_rewind n s p) split
    ∙ rewind-up (suc (rounds - depth key t - 1)) s key datum lt rt p 0 t h e nonnull
    ∙ rw (ne→== (root_of t) 0 hr, hf) refl

-- the node above the place of a key is the father of that place, and no node outside the tree
pub place-father :
    (key f p : ℕ) (s : Store) (t : Tree)
    → Shape s f t
    → place key t ≡ p
    → p ≢ 0
    → (s p).father ≡ above key f t
place-father key f p s (tip a) h e nonnull = rw⁻¹ e h.2
place-father key f p s (fork l a k d r) h e nonnull = elim (way key p l a k d r e nonnull) [
  | inl (up, e') ↦ rw up (place-father key a p s r h.8 e' nonnull)
  | inr (down, e') ↦ rw down (place-father key a p s l h.7 e' nonnull)
]

pub above-ne : (key f x : ℕ) (t : Tree) → x ≢ f → NotIn x t → x ≢ above key f t
above-ne key f x (tip a) h out = h
above-ne key f x (fork l a k d r) h out = elim (Bool-cases (signed_ltb k key)) [
  | inl up ↦ rw up (above-ne key a x r out.0 out.2)
  | inr down ↦ rw down (above-ne key a x l out.0 out.1)
]

pub above-ne_place :
    (key f p : ℕ) (t : Tree) → Distinct t → p ≢ f → place key t ≡ p → p ≢ 0 → p ≢ above key f t
above-ne_place key f p (tip a) distinct hf e nonnull = hf
above-ne_place key f p (fork l a k d r) distinct hf e nonnull =
    elim (way key p l a k d r e nonnull) [
      | inl (up, e') ↦ rw up (
          above-ne_place key a p r distinct.5
            (λ q. place-ne key a p r distinct.1 e' nonnull (sym q)) e' nonnull)
      | inr (down, e') ↦ rw down (
          above-ne_place key a p l distinct.4
            (λ q. place-ne key a p l distinct.0 e' nonnull (sym q)) e' nonnull)
    ]
