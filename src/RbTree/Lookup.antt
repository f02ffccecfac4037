-- ===== src/RbTree/Lookup.antt =====
-- What `rbtree_search` finds after `rbtree_insert`, for keys that are not negative
use lidas.Base.{
  ap₂, Returns, Returns-map, ℕ, suc, ◌<◌, ◌≤◌, ◌≡◌, ◌≢◌, refl, sym, ap, ◌∙◌, Option, some, none,
  List, [], ◌∷◌, ◌++◌, ok, ◌==◌, if◌then◌else◌, arith, inl, inr, Bool-cases, ne→==,
}
use lidas.Memory.Cache.Chain.{IsFree}
use lidas.RbTree.{Rbtree, black, signed_ltb, rbtree_search, rbt_search}
use lidas.RbTree.Shape.{Tree, tip, fork, root_of, Shape, Cell, cells, Distinct, NotIn}
use lidas.RbTree.Search.{lookup, datum_of, IsOrdered, height, rbtree_search_lem}
use lidas.RbTree.Place.{place, above, grafted}
use lidas.RbTree.Insert.{rbtree_insert}
use lidas.RbTree.Below.{rbtree_insert-black}
use lidas.RbTree.Graft.{root_of-grafted}
use lidas.RbTree.Ordered.{IsSmall, AllSmall, IsOrdered-grafted, lookup-grafted}

abbrev or_else : Option Cell → Option Cell → Option Cell
or_else none o = o
or_else (some c) o = some c

lookup-append :
    (q : ℕ) (xs ys : List Cell) → lookup q (xs ++ ys) ≡ or_else (lookup q xs) (lookup q ys)
lookup-append q [] ys = refl
lookup-append q ((a, k, d) ∷ xs) ys = elim (Bool-cases (q == k)) [
  | inl same ↦ rw same refl
  | inr other ↦ rw other (lookup-append q xs ys)
]

lookup-append_eq :
    (q : ℕ) (xs xs' ys ys' : List Cell)
    → lookup q xs ≡ lookup q xs'
    → lookup q ys ≡ lookup q ys'
    → lookup q (xs ++ ys) ≡ lookup q (xs' ++ ys')
lookup-append_eq q xs xs' ys ys' same_front same_back =
    lookup-append q xs ys ∙ ap₂ or_else same_front same_back ∙ sym (lookup-append q xs' ys')

lookup-cons_eq :
    (q : ℕ) (c : Cell) (ys ys' : List Cell)
    → lookup q ys ≡ lookup q ys'
    → lookup q (c ∷ ys) ≡ lookup q (c ∷ ys')
lookup-cons_eq q (a, k, d) ys ys' e = ap (λ o. if q == k then some (a, k, d) else o) e

lookup-grafted_ne :
    (q key datum lt rt : ℕ) (t : Tree)
    → q ≢ key
    → lookup q (cells (grafted key datum lt rt t)) ≡ lookup q (cells t)
lookup-grafted_ne q key datum lt rt (tip a) ne = rw (ne→== q key ne) refl
lookup-grafted_ne q key datum lt rt (fork l a k d r) ne = elim (Bool-cases (signed_ltb k key)) [
  | inl up ↦ rw up (
      lookup-append_eq q (cells l) (cells l) _ _ refl
        (lookup-cons_eq q (a, k, d) _ _ (lookup-grafted_ne q key datum lt rt r ne)))
  | inr down ↦ rw down (
      lookup-append_eq q (cells (grafted key datum lt rt l)) (cells l) _ _
        (lookup-grafted_ne q key datum lt rt l ne) refl)
]

height-grafted :
    (key datum lt rt : ℕ) (t : Tree) → height (grafted key datum lt rt t) ≤ suc (height t)
height-grafted key datum lt rt (tip a) = omega arith
height-grafted key datum lt rt (fork l a k d r) =
    let left = height-grafted key datum lt rt l in
    let right = height-grafted key datum lt rt r in ground (arith, left, right)

-- An entry that `rbtree_insert` puts below a black node is found by `rbtree_search`, and every other
-- key gives what it gave before, as long as no key is negative.
pub rbtree_search-insert :
    (rounds : ℕ) (t : Rbtree) (tree : Tree) (n r l key datum type : ℕ) (rest : List ℕ) (q : ℕ)
    → root_of tree ≡ t.root
    → Shape t.nodes 0 tree
    → Distinct tree
    → NotIn n tree
    → NotIn r tree
    → NotIn l tree
    → IsFree t.pool (n ∷ r ∷ l ∷ rest)
    → suc (height tree) < rounds
    → place key tree ≢ 0
    → above key 0 tree ≢ 0
    → (t.nodes (above key 0 tree)).color ≡ black
    → IsOrdered tree
    → AllSmall tree
    → IsSmall key
    → q ≢ key
    → Returns
        (λ (status, t').
          (rbtree_search rounds t'.nodes key t'.root rbt_search ≡ ok datum)
          × (rbtree_search rounds t'.nodes q t'.root rbt_search
              ≡ rbtree_search rounds t.nodes q t.root rbt_search))
        (rbtree_insert rounds key datum type t)
rbtree_search-insert rounds t tree n r l key datum type rest q root h distinct n_out r_out l_out
      free enough absent below dark ordered all small ne =
    Returns-map
      (rbtree_insert-black rounds t tree n r l key datum type rest root h distinct n_out r_out l_out
        free (omega (arith, enough)) absent below dark)
      (λ (status, t') (ok_status, same_root, grown, free', is_red, typed, others).
        let g = grafted key datum l r tree in
        let at_root : root_of g ≡ t'.root =
          root_of-grafted key datum l r tree ∙ root ∙ sym same_root in
        let higher : height g < rounds = omega (arith, enough, height-grafted key datum l r tree) in
        let o =
          IsOrdered-grafted key datum l r small (place key tree) tree all ordered refl absent in
        let new_key = (rbtree_search_lem rounds t'.nodes key 0 g grown o higher).0 in
        let other_key = (rbtree_search_lem rounds t'.nodes q 0 g grown o higher).0 in
        let before =
          (rbtree_search_lem rounds t.nodes q 0 tree h ordered (omega (arith, enough))).0 in
        (
          ap (λ x. rbtree_search rounds t'.nodes key x rbt_search) (sym at_root)
              ∙ new_key
              ∙ ap (λ x. ok (datum_of x))
                  (lookup-grafted key datum l r small (place key tree) tree all ordered refl
                    absent),
          ap (λ x. rbtree_search rounds t'.nodes q x rbt_search) (sym at_root)
              ∙ other_key
              ∙ ap (λ x. ok (datum_of x)) (lookup-grafted_ne q key datum l r tree ne)
              ∙ sym before
              ∙ ap (λ x. rbtree_search rounds t.nodes q x rbt_search) root,
        ))
