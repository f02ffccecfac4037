-- ===== src/RbTree/Ordered.antt =====
-- The order of a tree with a new entry of a key that is not negative
use lidas.Base.{
  ℕ, ◌<◌, ◌≤◌, ◌≡◌, ◌≢◌, refl, sym, ap, ◌∙◌, some, ◌∷◌, true, false, ==_self, ==_iff, if◌then◌else◌,
  arith, inl, inr, Bool-cases, ltb→lt, ltb→le, ne→==,
}
use lidas.RbTree.{signed_ltb}
use lidas.RbTree.Shape.{Tree, tip, fork, cells}
use lidas.RbTree.Search.{
  lookup, Below, Above, IsOrdered, lookup-append_none, lookup-append_left, lookup-Below,
  lookup-Above,
}
use lidas.RbTree.Place.{place, above, grafted, way}

-- an `int` that is not negative
abbrev pub IsSmall : ℕ → Type 0
IsSmall k = k < 2147483648

abbrev pub AllSmall : Tree → Type 0
AllSmall (tip a) = Unit
AllSmall (fork l a k d r) = IsSmall k × AllSmall l × AllSmall r

-- for such keys the order of `int`s is that of their bits
up-lt : (k key : ℕ) → IsSmall k → IsSmall key → signed_ltb k key ≡ true → k < key
up-lt k key hk hkey up = omega (arith, hk, hkey, ltb→lt _ _ up)

down-le : (k key : ℕ) → IsSmall k → IsSmall key → signed_ltb k key ≡ false → key ≤ k
down-le k key hk hkey down = omega (arith, hk, hkey, ltb→le _ _ down)

way-ne :
    (key p : ℕ) (l : Tree) (a k d : ℕ) (r : Tree) → place key (fork l a k d r) ≡ p → p ≢ 0 → k ≢ key
way-ne key p l a k d r e h same = h (
    sym e
    ∙ ap (λ b. if b then 0 else if signed_ltb k key then place key r else place key l)
        ((==_iff k key).1 same))

Below-grafted :
    (b key datum lt rt : ℕ) (t : Tree) → key < b → Below b t → Below b (grafted key datum lt rt t)
Below-grafted b key datum lt rt (tip a) h below = (h, tt, tt)
Below-grafted b key datum lt rt (fork l a k d r) h below = elim (Bool-cases (signed_ltb k key)) [
  | inl up ↦ rw up (below.0, below.1, Below-grafted b key datum lt rt r h below.2)
  | inr down ↦ rw down (below.0, Below-grafted b key datum lt rt l h below.1, below.2)
]

Above-grafted :
    (b key datum lt rt : ℕ) (t : Tree) → b < key → Above b t → Above b (grafted key datum lt rt t)
Above-grafted b key datum lt rt (tip a) h above = (h, tt, tt)
Above-grafted b key datum lt rt (fork l a k d r) h above = elim (Bool-cases (signed_ltb k key)) [
  | inl up ↦ rw up (above.0, above.1, Above-grafted b key datum lt rt r h above.2)
  | inr down ↦ rw down (above.0, Above-grafted b key datum lt rt l h above.1, above.2)
]

module _ (key datum lt rt : ℕ) (small : IsSmall key) where
  pub IsOrdered-grafted :
      (p : ℕ) (t : Tree)
      → AllSmall t
      → IsOrdered t
      → place key t ≡ p
      → p ≢ 0
      → IsOrdered (grafted key datum lt rt t)
  IsOrdered-grafted p (tip a) all o e h = (tt, tt, tt, tt)
  IsOrdered-grafted p (fork l a k d r) all o e h =
      let ne = way-ne key p l a k d r e h in
      elim (way key p l a k d r e h) [
        | inl (up, e') ↦ rw up (
          o.0,
          Above-grafted k key datum lt rt r (up-lt k key all.0 small up) o.1,
          o.2,
          IsOrdered-grafted p r all.2 o.3 e' h,
        )
        | inr (down, e') ↦
            let le = down-le k key all.0 small down in
            rw down (
              Below-grafted k key datum lt rt l (omega (arith, le, ne)) o.0,
              o.1,
              IsOrdered-grafted p l all.1 o.2 e' h,
              o.3,
            )
      ]

  pub lookup-grafted :
      (p : ℕ) (t : Tree)
      → AllSmall t
      → IsOrdered t
      → place key t ≡ p
      → p ≢ 0
      → lookup key (cells (grafted key datum lt rt t)) ≡ some (p, key, datum)
  lookup-grafted p (tip a) all o e h = rw (==_self key, e) refl
  lookup-grafted p (fork l a k d r) all o e h =
      let ne = way-ne key p l a k d r e h in
      let other = ne→== key k (λ q. ne (sym q)) in
      elim (way key p l a k d r e h) [
        | inl (up, e') ↦
            let lt' = up-lt k key all.0 small up in
            let skip =
              lookup-append_none key (cells l) ((a, k, d) ∷ cells (grafted key datum lt rt r))
                (lookup-Below key k l o.0 (omega (arith, lt'))) in
            rw (up, skip, other) (lookup-grafted p r all.2 o.3 e' h)
        | inr (down, e') ↦
            let le = down-le k key all.0 small down in
            let left =
              lookup-append_left key (cells (grafted key datum lt rt l)) ((a, k, d) ∷ cells r)
                (rw other (lookup-Above key k r o.1 le)) in
            rw (down, left) (lookup-grafted p l all.1 o.2 e' h)
      ]
