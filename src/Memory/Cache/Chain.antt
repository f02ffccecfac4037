-- ===== src/Memory/Cache/Chain.antt =====
-- What a cache promises: a stack of free addresses, from which `mem_cache_alloc` takes and to which
-- `mem_cache_free` gives back.
use lidas.Base.{
  ℕ, ◌≡◌, refl, sym, ◌∙◌, ◌≢◌, false, List, [], ◌∷◌, arith, ◌==◌, ==_self, ne→==, length, Returns,
  returns,
}
use lidas.Memory.Cache.{Cell, Cache, put, unlink, mem_cache_alloc, mem_cache_free}

abbrev pub NotIn : ℕ → List ℕ → Type 0
NotIn a [] = Unit
NotIn a (x ∷ xs) = (a ≢ x) × NotIn a xs

-- From `p` the `next` pointers lead through the distinct addresses `xs`, none NULL, to one more
-- address that is not NULL.
abbrev pub Chain : (ℕ → Cell) → ℕ → List ℕ → Type 0
Chain cells p [] = p ≢ 0
Chain cells p (x ∷ xs) = (p ≡ x) × (x ≢ 0) × NotIn x xs × Chain cells (cells x).next xs

pub record IsFree (c : Cache) (xs : List ℕ) : Type 0 where
  pub chain : Chain c.cells c.next xs
  pub number : c.num ≡ length xs

-- A change of a cell that is not on the chain leaves the chain.
Chain-put :
    (cells : ℕ → Cell) (a : ℕ) (c : Cell) (p : ℕ) (xs : List ℕ)
    → NotIn a xs
    → Chain cells p xs
    → Chain (put cells a c) p xs
Chain-put cells a c p [] n h = h
Chain-put cells a c p (x ∷ xs) n h =
    let same : put cells a c x ≡ cells x = ground (arith, n.0) in
    (h.0, h.1, h.2, rw same (Chain-put cells a c (cells x).next xs n.1 h.3))

put-prev-next :
    (cells : ℕ → Cell) (b v x : ℕ)
    → (put cells b (record { prev = v; next = (cells b).next }) x).next ≡ (cells x).next
put-prev-next cells b v x = ground arith

-- So does a change of the `prev` of any cell.
Chain-prev :
    (cells : ℕ → Cell) (b v p : ℕ) (xs : List ℕ)
    → Chain cells p xs
    → Chain (put cells b (record { prev = v; next = (cells b).next })) p xs
Chain-prev cells b v p [] h = h
Chain-prev cells b v p (x ∷ xs) h =
    (h.0, h.1, h.2, rw (put-prev-next cells b v x) (Chain-prev cells b v (cells x).next xs h.3))

Chain-nonnull : (cells : ℕ → Cell) (p : ℕ) (xs : List ℕ) → Chain cells p xs → p ≢ 0
Chain-nonnull cells p [] h = h
Chain-nonnull cells p (x ∷ xs) h = λ e. h.1 (sym h.0 ∙ e)

-- `mem_cache_alloc` returns NULL and changes nothing if no cell is free. Otherwise it returns the
-- first of the free addresses, which is not NULL, and leaves the others free in their order.
pub mem_cache_alloc_lem :
    (c : Cache) (xs : List ℕ)
    → IsFree c xs
    → Returns
        (λ (a, c'). elim xs as (λ _. Type 0) [
          | [] ↦ (a ≡ 0) × (c' ≡ c)
          | x ∷ rest ↦ (a ≡ x) × (x ≢ 0) × IsFree c' rest
        ])
        (mem_cache_alloc c)
unfolding unlink mem_cache_alloc
mem_cache_alloc_lem c [] f = rw f.number (returns (refl, refl))
mem_cache_alloc_lem c (x ∷ rest) f =
    let (at_x, nonnull, new, chain) = f.chain in
    let second : (c.cells x).next ≢ 0 = Chain-nonnull c.cells _ rest chain in
    let some_left : (c.num == 0) ≡ false = ground (arith, f.number) in
    rw (some_left, at_x, ne→== _ _ nonnull, ne→== _ _ second)
      (returns (
        refl,
        nonnull,
        record {
          chain =
              Chain-put _ x (record { prev = 0; next = 0 }) _ rest new
                (Chain-prev c.cells (c.cells x).next c.at _ rest chain);
          number = omega (arith, f.number);
        },
      ))

-- `mem_cache_free` of an address that is not NULL and not free already puts it in front of the free
-- ones, so that the next `mem_cache_alloc` returns it.
pub mem_cache_free_lem :
    (c : Cache) (xs : List ℕ) (g : ℕ)
    → IsFree c xs
    → g ≢ 0
    → NotIn g xs
    → Returns (λ c'. IsFree c' (g ∷ xs)) (mem_cache_free g c)
unfolding mem_cache_free
mem_cache_free_lem c xs g f nonnull new = rw (ne→== _ _ nonnull) (
    returns (record {
      chain = (
        refl,
        nonnull,
        new,
        rw (==_self g)
            (Chain-put c.cells g (record { prev = c.at; next = c.next }) _ xs new f.chain),
      );
      number = omega (arith, f.number);
    }))
