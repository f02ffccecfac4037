-- ===== src/RbTree/Place.antt =====
-- The empty place that `rbtree_insert` finds for a key, the tree with the new entry there, and the way
-- back to the root
use lidas.Base.{
  ◌⊎◌, ℕ, zero, suc, ◌<◌, ◌≡◌, ◌≢◌, refl, sym, ap, ◌∙◌, true, false, ok, ne→==, ◌==◌, if◌then◌else◌,
  arith, inl, inr, Bool-cases,
}
use lidas.RbTree.{Store, signed_ltb}
use lidas.RbTree.Shape.{Tree, tip, fork, root_of, Shape, NotIn, Outside}
use lidas.RbTree.Search.{height, height-below}
use lidas.RbTree.Insert.{find_place}

-- where the way for the key ends: an empty place, or 0 at a node with the key
abbrev pub place : (key : ℕ) → Tree → ℕ
place key (tip a) = a
place key (fork l a k d r) =
    let right = place key r in
    let left = place key l in if k == key then 0 else if signed_ltb k key then right else left

-- the node above that place, or `f` if the tree is empty
abbrev pub above : (key f : ℕ) → Tree → ℕ
above key f (tip a) = f
above key f (fork l a k d r) =
    let right = above key a r in
    let left = above key a l in if signed_ltb k key then right else left

-- the tree with an entry in that place
abbrev pub grafted : (key datum left right : ℕ) → Tree → Tree
grafted key datum lt rt (tip a) = fork (tip lt) a key datum (tip rt)
grafted key datum lt rt (fork l a k d r) =
    let on_right = grafted key datum lt rt r in
    let on_left = grafted key datum lt rt l in
    if signed_ltb k key then fork l a k d on_right else fork on_left a k d r

pub find_place_lem :
    (rounds : ℕ) (s : Store) (key f : ℕ) (t : Tree)
    → Shape s f t
    → height t < rounds
    → find_place rounds s key (root_of t) ≡ ok (place key t)
unfolding find_place
find_place_lem zero s key f t h enough = absurd (omega arith)
find_place_lem (suc n) s key f (tip a) h enough = rw (ne→== a 0 h.0, h.1) refl
find_place_lem (suc n) s key f (fork l a k d r) h enough =
    let (low, high) = height-below n l a k d r enough in
    rw
      (
        ne→== a 0 h.0,
        h.1,
        h.3,
        h.5,
        h.6,
        find_place_lem n s key a l h.7 low,
        find_place_lem n s key a r h.8 high,
      )
      (elim (Bool-cases (k == key)) [
        | inl same ↦ rw same refl
        | inr other ↦ elim (Bool-cases (signed_ltb k key)) [
          | inl up ↦ rw (other, up) refl
          | inr down ↦ rw (other, down) refl
        ]
      ])

-- The way on from a node, unless the key is there, goes to the right or to the left.
pub way :
    (key p : ℕ) (l : Tree) (a k d : ℕ) (r : Tree)
    → place key (fork l a k d r) ≡ p
    → p ≢ 0
    → ((signed_ltb k key ≡ true) × (place key r ≡ p))
      ⊎ ((signed_ltb k key ≡ false) × (place key l ≡ p))
way key p l a k d r e h =
    elim (Bool-cases (k == key))
      as (λ _.
        ((signed_ltb k key ≡ true) × (place key r ≡ p))
        ⊎ ((signed_ltb k key ≡ false) × (place key l ≡ p))) [
          | inl same ↦ absurd (
              h (
                sym e
                ∙ ap (λ b. if b then 0 else if signed_ltb k key then place key r else place key l)
                    same))
          | inr other ↦
              let e' =
                sym (
                  ap (λ b. if b then 0 else if signed_ltb k key then place key r else place key l)
                    other)
                ∙ e in
              elim (Bool-cases (signed_ltb k key)) [
                | inl up ↦ inl (up, sym (ap (λ b. if b then place key r else place key l) up) ∙ e')
                | inr down ↦
                    inr (down, sym (ap (λ b. if b then place key r else place key l) down) ∙ e')
              ]
        ]

-- The place is a node of the tree.
pub place-ne : (key x p : ℕ) (t : Tree) → NotIn x t → place key t ≡ p → p ≢ 0 → x ≢ p
place-ne key x p (tip a) out e h = λ q. out (q ∙ sym e)
place-ne key x p (fork l a k d r) out e h = elim (way key p l a k d r e h) [
  | inl (up, e') ↦ place-ne key x p r out.2 e' h
  | inr (down, e') ↦ place-ne key x p l out.1 e' h
]

pub place-Outside : (key p : ℕ) (t u : Tree) → Outside t u → place key t ≡ p → p ≢ 0 → NotIn p u
place-Outside key p (tip a) u out e h = rw⁻¹ e out
place-Outside key p (fork l a k d r) u out e h = elim (way key p l a k d r e h) [
  | inl (up, e') ↦ place-Outside key p r u out.2 e' h
  | inr (down, e') ↦ place-Outside key p l u out.1 e' h
]
