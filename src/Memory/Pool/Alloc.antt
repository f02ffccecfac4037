-- ===== src/Memory/Pool/Alloc.antt =====
-- What a run of calls of `mem_pool_alloc` (src/memory.c) returns
use lidas.Base.{
  ℕ, ◌+◌, ◌-◌, ◌≤◌, ◌<◌, ◌≡◌, refl, ap, inl, inr, true, List, [], ◌∷◌, arith, leb, if◌then◌else◌,
  leb→le, Bool-cases, Run, ok, fault, ◌>>=◌, Returns, returns, Returns-bind,
}
use lidas.Memory.Pool.{Page, pool_siz, alloc_in, mem_pool_alloc}

-- calls of `mem_pool_alloc` for the sizes given, one after the other: each address with its size
pub alloc_all : List ℕ → List Page → Run (List (ℕ × ℕ) × List Page)
unfolding mem_pool_alloc
alloc_all [] pool = ok ([], pool)
alloc_all (size ∷ sizes) pool =
    mem_pool_alloc 0 size pool
    >>= (λ (ret, pool'). alloc_all sizes pool' >>= (λ (rets, last). ok ((ret, size) ∷ rets, last)))

abbrev pub sum : List ℕ → ℕ
sum [] = 0
sum (x ∷ xs) = x + sum xs

-- sizes that a page can hold
abbrev AreSmall : List ℕ → Type 0
AreSmall [] = Unit
AreSmall (x ∷ xs) = (x ≤ pool_siz) × AreSmall xs

-- The blocks lie between `lo` and `hi`, each behind the one before it.
abbrev pub InOrder : ℕ → ℕ → List (ℕ × ℕ) → Type 0
InOrder lo hi [] = lo ≤ hi
InOrder lo hi (b ∷ bs) = (lo ≤ b.0) × InOrder (b.0 + b.1) hi bs

abbrev pub sizes_of : List (ℕ × ℕ) → List ℕ
sizes_of [] = []
sizes_of (b ∷ bs) = b.1 ∷ sizes_of bs

small-alloc :
    (size : ℕ) (p : Page)
    → size ≤ pool_siz
    → mem_pool_alloc 0 size (p ∷ []) ≡ (
        if leb size (p.end_ - p.start)
        then ok (p.start, record p { start = p.start + size } ∷ [])
        else fault)
unfolding alloc_in mem_pool_alloc
small-alloc size p h = ground (arith, h)

-- As long as the sizes fit into what is left of the one page, every call of `mem_pool_alloc`
-- returns a block of the size asked for, inside the page and apart from all the others.
pub alloc_all-InOrder :
    (sizes : List ℕ) (p : Page)
    → AreSmall sizes
    → p.start + sum sizes ≤ p.end_
    → Returns
        (λ (blocks, pool). (sizes_of blocks ≡ sizes) × InOrder p.start p.end_ blocks)
        (alloc_all sizes (p ∷ []))
unfolding alloc_all
alloc_all-InOrder [] p a h = returns (refl, omega (arith, h))
alloc_all-InOrder (size ∷ sizes) p a h =
    let q : Page = record p { start = p.start + size } in
    let fits : leb size (p.end_ - p.start) ≡ true = ground (arith, h) in
    rw (small-alloc size p a.0, fits)
      (Returns-bind (alloc_all-InOrder sizes q a.1 (omega (arith, h)))
        (λ r (same, order). returns (ap (λ xs. size ∷ xs) same, (omega arith, order))))

-- As soon as the sizes do not fit, the run ends in a fault, since a pool never gets a second page.
pub alloc_all-overflow :
    (sizes : List ℕ) (p : Page)
    → AreSmall sizes
    → p.start ≤ p.end_
    → p.end_ < p.start + sum sizes
    → alloc_all sizes (p ∷ []) ≡ fault
unfolding alloc_all
alloc_all-overflow [] p a b h = ground (arith, b, h)
alloc_all-overflow (size ∷ sizes) p a b h =
    let q : Page = record p { start = p.start + size } in
    elim (Bool-cases (leb size (p.end_ - p.start))) [
      | inl fits ↦
          let small : size ≤ p.end_ - p.start = leb→le _ _ fits in
          let later = alloc_all-overflow sizes q a.1 (omega (arith, small, b)) (omega (arith, h)) in
          rw (small-alloc size p a.0, fits, later) refl
      | inr full ↦ rw (small-alloc size p a.0, full) refl
    ]
