-- ===== src/RbTree/Search.antt =====
-- `rbtree_search` against a search among the entries of the tree
use lidas.Base.{
  ℕ, zero, suc, ◌<◌, ◌≤◌, ◌∙◌, ap, ne→==, Bool-cases, ==_iff, ltb→lt, ltb→le, ◌≡◌, ◌≢◌, refl, inl,
  inr, Option, none, some, List, [], ◌∷◌, ◌++◌, arith, ◌==◌, ltb, if◌then◌else◌, ok,
}
use lidas.RbTree.{Store, find_node, rbtree_search, rbt_search, rbt_del}
use lidas.RbTree.Shape.{Tree, tip, fork, root_of, Shape, Cell, cells}

-- the first entry with the key, and what it gives for a number
abbrev pub lookup : (key : ℕ) → List Cell → Option Cell
lookup key [] = none
lookup key ((a, k, d) ∷ cs) =
    let later = lookup key cs in if key == k then some (a, k, d) else later

abbrev pub address_of : Option Cell → ℕ
address_of none = 0
address_of (some (a, k, d)) = a

abbrev pub datum_of : Option Cell → ℕ
datum_of none = 0
datum_of (some (a, k, d)) = d

abbrev pub Below : ℕ → Tree → Type 0
Below b (tip a) = Unit
Below b (fork l a k d r) = (k < b) × Below b l × Below b r

abbrev pub Above : ℕ → Tree → Type 0
Above b (tip a) = Unit
Above b (fork l a k d r) = (b < k) × Above b l × Above b r

-- the keys are in the order of their 32 bits
abbrev pub IsOrdered : Tree → Type 0
IsOrdered (tip a) = Unit
IsOrdered (fork l a k d r) = Below k l × Above k r × IsOrdered l × IsOrdered r

abbrev pub height : Tree → ℕ
height (tip a) = 0
height (fork l a k d r) = suc (if ltb (height l) (height r) then height r else height l)

pub lookup-append_none :
    (key : ℕ) (xs ys : List Cell) → lookup key xs ≡ none → lookup key (xs ++ ys) ≡ lookup key ys
lookup-append_none key [] ys h = refl
lookup-append_none key (x ∷ xs) ys h = ground (arith, lookup-append_none key xs ys)

pub lookup-append_left :
    (key : ℕ) (xs ys : List Cell) → lookup key ys ≡ none → lookup key (xs ++ ys) ≡ lookup key xs
lookup-append_left key [] ys h = h
lookup-append_left key (x ∷ xs) ys h = ground (arith, lookup-append_left key xs ys)

pub lookup-Below : (key b : ℕ) (t : Tree) → Below b t → b ≤ key → lookup key (cells t) ≡ none
lookup-Below key b (tip a) h le = refl
lookup-Below key b (fork l a k d r) h le =
    lookup-append_none key (cells l) _ (lookup-Below key b l h.1 le)
    ∙ ground (arith, lookup-Below key b r h.2 le)

pub lookup-Above : (key b : ℕ) (t : Tree) → Above b t → key ≤ b → lookup key (cells t) ≡ none
lookup-Above key b (tip a) h le = refl
lookup-Above key b (fork l a k d r) h le =
    lookup-append_none key (cells l) _ (lookup-Above key b l h.1 le)
    ∙ ground (arith, lookup-Above key b r h.2 le)

pub height-below :
    (n : ℕ) (l : Tree) (a k d : ℕ) (r : Tree)
    → height (fork l a k d r) < suc n
    → (height l < n) × (height r < n)
height-below n l a k d r h = ground (arith, h)

-- one round of the loop, at a node of a tree
find_node-fork :
    (n : ℕ) (s : Store) (key f a k d : ℕ) (l r : Tree)
    → Shape s f (fork l a k d r)
    → find_node (suc n) s key a ≡ (
        if key == k
        then ok a
        else if ltb k key
        then find_node n s key (root_of r)
        else find_node n s key (root_of l))
unfolding find_node
find_node-fork n s key f a k d l r h = rw (ne→== a 0 h.0, h.1, h.3, h.5, h.6) refl

find_node-lookup :
    (rounds : ℕ) (s : Store) (key f : ℕ) (t : Tree)
    → Shape s f t
    → IsOrdered t
    → height t < rounds
    → find_node rounds s key (root_of t) ≡ ok (address_of (lookup key (cells t)))
unfolding find_node
find_node-lookup zero s key f t h o enough = absurd (omega arith)
find_node-lookup (suc n) s key f (tip a) h o enough = rw (ne→== a 0 h.0, h.1) refl
find_node-lookup (suc n) s key f (fork l a k d r) h o enough =
    let here = (a, k, d) ∷ cells r in
    find_node-fork n s key f a k d l r h ∙ elim (Bool-cases (key == k)) [
      | inl same ↦
          let e = (==_iff key k).0 same in
          let none_left =
            lookup-append_none key (cells l) here (lookup-Below key k l o.0 (omega (arith, e))) in
          rw (none_left, same) refl
      | inr other ↦ elim (Bool-cases (ltb k key)) [
        | inl greater ↦
            let lt = ltb→lt k key greater in
            let none_left =
              lookup-append_none key (cells l) here
                (lookup-Below key k l o.0 (omega (arith, lt))) in
            rw (none_left, other, greater)
              (find_node-lookup n s key a r h.8 o.3 (height-below n l a k d r enough).1)
        | inr less ↦
            let le = ltb→le k key less in
            let none_right = lookup-Above key k r o.1 le in
            let in_left = lookup-append_left key (cells l) here (rw (other) none_right) in
            rw (in_left, other, less)
              (find_node-lookup n s key a l h.7 o.2 (height-below n l a k d r enough).0)
      ]
    ]

-- each entry is what its node says
abbrev Stand : Store → List Cell → Type 0
Stand s [] = Unit
Stand s ((a, k, d) ∷ cs) = (a ≢ 0) × ((s a).datum ≡ d) × Stand s cs

Stand-append : (s : Store) (xs ys : List Cell) → Stand s xs → Stand s ys → Stand s (xs ++ ys)
Stand-append s [] ys h g = g
Stand-append s ((a, k, d) ∷ xs) ys h g = (h.0, h.1, Stand-append s xs ys h.2 g)

Stand-cells : (s : Store) (f : ℕ) (t : Tree) → Shape s f t → Stand s (cells t)
Stand-cells s f (tip a) h = tt
Stand-cells s f (fork l a k d r) h =
    Stand-append s (cells l) ((a, k, d) ∷ cells r) (Stand-cells s a l h.7)
      (h.0, h.4, Stand-cells s a r h.8)

-- what `rbtree_search` makes of the address that its loop found
abbrev result : Store → (p cmd : ℕ) → ℕ
result s p cmd =
    if p == 0 then 0 else if cmd == rbt_search then (s p).datum else if cmd == rbt_del then p else 0

result-lookup :
    (s : Store) (key : ℕ) (cs : List Cell)
    → Stand s cs
    → (result s (address_of (lookup key cs)) rbt_search ≡ datum_of (lookup key cs))
      × (result s (address_of (lookup key cs)) rbt_del ≡ address_of (lookup key cs))
result-lookup s key [] h = (refl, refl)
result-lookup s key ((a, k, d) ∷ cs) h = elim (Bool-cases (key == k)) [
  | inl same ↦ rw (same, ne→== a 0 h.0) (h.1, refl)
  | inr other ↦ rw other (result-lookup s key cs h.2)
]

-- In a tree whose keys are in the order of their 32 bits, with more rounds than the tree is high,
-- `rbtree_search` returns the data of the entry with the key, or its node for RBT_DEL, and NULL if no
-- entry has the key.
pub rbtree_search_lem :
    (rounds : ℕ) (s : Store) (key f : ℕ) (t : Tree)
    → Shape s f t
    → IsOrdered t
    → height t < rounds
    → (rbtree_search rounds s key (root_of t) rbt_search ≡ ok (datum_of (lookup key (cells t))))
      × (rbtree_search rounds s key (root_of t) rbt_del ≡ ok (address_of (lookup key (cells t))))
unfolding rbtree_search
rbtree_search_lem rounds s key f t h o enough =
    let both = result-lookup s key (cells t) (Stand-cells s f t h) in
    rw (find_node-lookup rounds s key f t h o enough) (ap ok both.0, ap ok both.1)
