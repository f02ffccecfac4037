-- ===== src/Memory/Cache/Create.antt =====
-- What `mem_cache_creat` and `mem_cache_locate` of src/memory.c make of a block
use lidas.Base.{
  ℕ, zero, suc, ◌+◌, ◌-◌, ◌*◌, ◌≤◌, ◌<◌, ◌≡◌, refl, sym, ap, ◌∙◌, List, [], ◌∷◌, arith, ==_self,
  length, Returns-inv, Run, ok, fault, ◌>>=◌, lt→ltb, ltb, ◌==◌, inl, inr, true, Bool-cases,
}
use lidas.Memory.Cache.{
  Cell, Cache, put, locate_from, mem_cache_locate, sizeof_head, sizeof_cell, mem_cache_creat,
  mem_cache_alloc,
}
use lidas.Memory.Cache.Chain.{NotIn, Chain, IsFree, mem_cache_alloc_lem}

abbrev pub addresses : (n a size : ℕ) → List ℕ
addresses zero a size = []
addresses (suc n) a size = a ∷ addresses n (a + size) size

length-addresses : (n a size : ℕ) → length (addresses n a size) ≡ n
length-addresses zero a size = refl
length-addresses (suc n) a size = ap suc (length-addresses n (a + size) size)

addresses-NotIn : (n a size b : ℕ) → b < a → NotIn b (addresses n a size)
addresses-NotIn zero a size b h = tt
addresses-NotIn (suc n) a size b h =
    (omega (arith, h), addresses-NotIn n (a + size) size b (omega (arith, h)))

locate_from-before :
    (n size p : ℕ) (cells : ℕ → Cell) (x : ℕ) → x < p → locate_from n size p cells x ≡ cells x
unfolding locate_from
locate_from-before zero size p cells x h = refl
locate_from-before (suc n) size p cells x h =
    locate_from-before n size (p + size) _ x (omega (arith, h)) ∙ ground (arith, h)

-- The cell at `p` leads on to the one that the loop writes next.
locate_from-next :
    (n size p : ℕ) (cells : ℕ → Cell)
    → 0 < size
    → (locate_from (suc n) size p cells p).next ≡ p + size
unfolding locate_from
locate_from-next n size p cells h =
    rw
      (
        locate_from-before n size (p + size)
            (put cells p (record { prev = p - size; next = p + size })) p (omega (arith, h)),
        ==_self p,
      )
      refl

locate_from-Chain :
    (n r size p : ℕ) (cells : ℕ → Cell)
    → 0 < size
    → 0 < p
    → n ≤ r
    → Chain (locate_from r size p cells) p (addresses n p size)
unfolding locate_from
locate_from-Chain zero r size p cells s h l = λ e. omega (arith, h, e)
locate_from-Chain (suc n) zero size p cells s h l = ground (arith, l)
locate_from-Chain (suc n) (suc r) size p cells s h l = (
  refl,
  (λ e. omega (arith, h, e)),
  addresses-NotIn n (p + size) size p (omega (arith, s)),
  rw (locate_from-next r size p cells s)
      (locate_from-Chain n r size (p + size) _ s (omega (arith, h)) (omega (arith, l))),
)

-- the chain that `mem_cache_locate` makes
located-Chain :
    (n size start : ℕ) (memory : ℕ → Cell)
    → 0 < size
    → 0 < start
    → Chain
        (locate_from n size
          (start + size)
          (put memory start (record { prev = 0; next = start + size })))
        start
        (addresses n start size)
located-Chain zero size start memory s h = λ e. omega (arith, h, e)
located-Chain (suc n) size start memory s h =
    let cells = put memory start (record { prev = 0; next = start + size }) in
    let stays = locate_from-before (suc n) size (start + size) cells start (omega (arith, s)) in
    (
      refl,
      (λ e. omega (arith, h, e)),
      addresses-NotIn n (start + size) size start (omega (arith, s)),
      rw (stays, ==_self start)
          (locate_from-Chain n (suc n) size (start + size) cells s (omega (arith, h))
            (omega arith)),
    )

-- what the next `n` calls of `mem_cache_alloc` return
pub alloc_cells : ℕ → Cache → Run (List ℕ)
alloc_cells zero c = ok []
alloc_cells (suc n) c =
    mem_cache_alloc c >>= (λ (a, c'). alloc_cells n c' >>= (λ rest. ok (a ∷ rest)))

alloc_cells-IsFree : (xs : List ℕ) (c : Cache) → IsFree c xs → alloc_cells (length xs) c ≡ ok xs
unfolding alloc_cells
alloc_cells-IsFree [] c free = refl
alloc_cells-IsFree (x ∷ xs) c free =
    let ((a, c'), run, (same, nonnull, free')) =
      Returns-inv (mem_cache_alloc_lem c (x ∷ xs) free) in
    rw (run, alloc_cells-IsFree xs c' free', same) refl

-- If memory of any content is laid out from `start` on, which is not NULL, in cells of at least the 16
-- bytes of their two pointers, then `mem_cache_locate` returns the number `n` of the head, exactly the
-- `n` cells of `size` bytes are free, one behind the other, and the next `n` calls of `mem_cache_alloc`
-- return them in this order.
pub mem_cache_locate_lem :
    (head : Cache) (start size : ℕ)
    → 0 < start
    → sizeof_cell ≤ size
    → let (count, c) = mem_cache_locate head start size in
      (count ≡ head.num)
      × IsFree c (addresses head.num start size)
      × (alloc_cells head.num c ≡ ok (addresses head.num start size))
unfolding mem_cache_locate
mem_cache_locate_lem head start size h s =
    let n = head.num in
    let cells = put head.cells start (record { prev = 0; next = start + size }) in
    let c : Cache = record head { next = start; cells = locate_from n size (start + size) cells } in
    let free : IsFree c (addresses n start size) = record {
      chain = located-Chain n size start head.cells (omega (arith, s)) h;
      number = sym (length-addresses n start size);
    } in
    let calls = alloc_cells-IsFree (addresses n start size) c free in
    (refl, free, ap (λ k. alloc_cells k c) (sym (length-addresses n start size)) ∙ calls)

-- `mem_cache_creat` always writes behind the block that it got, of the 24 bytes of the head and the `n`
-- cells, because the first cell starts 24 heads, not 24 bytes, after its start, and because the loop
-- runs once too often.
pub mem_cache_creat-faults :
    (block : ℕ) (memory : ℕ → Cell) (size n : ℕ) → mem_cache_creat block memory size n ≡ fault
unfolding mem_cache_creat
mem_cache_creat-faults block memory size n =
    let start = block + sizeof_head * sizeof_head in
    let behind : ltb (block + sizeof_head + n * size) (start + n * size + sizeof_cell) ≡ true =
      lt→ltb _ _ (omega arith) in
    elim (Bool-cases (block == 0)) [ inl null ↦ rw null refl | inr real ↦ rw (real, behind) refl ]
