-- ===== src/Memory/Pool/Tests.antt =====
-- Runs of `mem_pool_alloc` and `mem_pool_destroy` on a page at 8192
use lidas.Base.{ℕ, ◌≡◌, refl, some, [], ◌∷◌, arith, ok, fault, ◌>>=◌, Returns}
use lidas.Memory.Pool.{Page, mem_pool_creat, mem_pool_destroy}
use lidas.Memory.Pool.Alloc.{alloc_all, sizes_of, InOrder, alloc_all-InOrder, alloc_all-overflow}
use lidas.Memory.Pool.Destroy.{large_all, large_all-destroy, large_all-dangles}

abbrev page_with : (ℕ → ℕ) → Page
page_with words = record { at = 8192; start = 8232; end_ = 12288; extra = []; words = words }

creat_test : mem_pool_creat 8192 (λ a. 0) ≡ some (page_with (λ a. 0) ∷ [])
unfolding mem_pool_creat
creat_test = refl

alloc_all-InOrder_example :
    Returns
      (λ (blocks, pool). (sizes_of blocks ≡ 56 ∷ 4000 ∷ []) × InOrder 8232 12288 blocks)
      (alloc_all (56 ∷ 4000 ∷ []) (page_with (λ a. 0) ∷ []))
alloc_all-InOrder_example =
    alloc_all-InOrder (56 ∷ 4000 ∷ []) (page_with (λ a. 0)) (omega arith, (omega arith, tt))
      (omega arith)

alloc_all-overflow_test : alloc_all (56 ∷ 4000 ∷ 1 ∷ []) (page_with (λ a. 0) ∷ []) ≡ fault
alloc_all-overflow_test =
    alloc_all-overflow (56 ∷ 4000 ∷ 1 ∷ []) (page_with (λ a. 0))
      (omega arith, (omega arith, (omega arith, tt))) (omega arith) (omega arith)

large_all-destroy_test :
    (large_all ((65536, 5000) ∷ (131072, 9000) ∷ []) (page_with (λ a. 0) ∷ []) >>= mem_pool_destroy)
    ≡ ok (65536 ∷ 131072 ∷ 8192 ∷ [])
large_all-destroy_test =
    large_all-destroy ((65536, 5000) ∷ (131072, 9000) ∷ []) (page_with (λ a. 0))
      (omega arith, (omega arith, tt)) (λ a. refl) (omega arith)

large_all-dangles_test :
    (large_all ((65536, 5000) ∷ []) (page_with (λ a. 1) ∷ []) >>= mem_pool_destroy) ≡ fault
large_all-dangles_test =
    large_all-dangles 65536 5000 (page_with (λ a. 1)) (omega arith) (λ a. ground arith)
      (omega arith)
