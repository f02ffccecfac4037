-- ===== src/Memory/Cache/Tests.antt =====
-- `mem_cache_creat`, `mem_cache_alloc` and `mem_cache_free` on small caches
use lidas.Base.{ℕ, zero, ◌≡◌, refl, ◌≢◌, [], ◌∷◌, arith, Returns, ok, fault}
use lidas.Memory.Cache.{
  Cell, Cache, put, mem_cache_creat, mem_cache_locate, mem_cache_alloc, mem_cache_free,
}
use lidas.Memory.Cache.Chain.{IsFree, mem_cache_alloc_lem, mem_cache_free_lem}
use lidas.Memory.Cache.Create.{alloc_cells, mem_cache_locate_lem, mem_cache_creat-faults}

abbrev no_cell : ℕ → Cell
no_cell x = record { prev = 0; next = 0 }

abbrev no_cache : Cache
no_cache = record { at = 1000; size = 32; num = 3; next = 0; cells = no_cell }

mem_cache_locate_lem_example :
    let (count, c) = mem_cache_locate no_cache 1576 32 in
    (count ≡ 3)
    × IsFree c (1576 ∷ 1608 ∷ 1640 ∷ [])
    × (alloc_cells 3 c ≡ ok (1576 ∷ 1608 ∷ 1640 ∷ []))
mem_cache_locate_lem_example = mem_cache_locate_lem no_cache 1576 32 (omega arith) (omega arith)

mem_cache_creat-faults_test : mem_cache_creat 1000 no_cell 32 3 ≡ fault
mem_cache_creat-faults_test = mem_cache_creat-faults 1000 no_cell 32 3

-- a cache with the free cells at 64 and 96
abbrev two_free : Cache
two_free = record {
  at = 8;
  size = 32;
  num = 2;
  next = 64;
  cells =
      put (put no_cell 64 (record { prev = 0; next = 96 })) 96 (record { prev = 64; next = 128 });
}

two_free-IsFree : IsFree two_free (64 ∷ 96 ∷ [])
two_free-IsFree = record {
  chain = (refl, ground arith, (ground arith, tt), (refl, ground arith, tt, ground arith));
  number = refl;
}

mem_cache_alloc_lem_example :
    Returns (λ (a, c'). (a ≡ 64) × (64 ≢ zero) × IsFree c' (96 ∷ [])) (mem_cache_alloc two_free)
mem_cache_alloc_lem_example = mem_cache_alloc_lem two_free (64 ∷ 96 ∷ []) two_free-IsFree

mem_cache_free_lem_test : Returns (λ c'. IsFree c' (32 ∷ 64 ∷ 96 ∷ [])) (mem_cache_free 32 two_free)
mem_cache_free_lem_test =
    mem_cache_free_lem two_free (64 ∷ 96 ∷ []) 32 two_free-IsFree (ground arith)
      (ground arith, (ground arith, tt))
