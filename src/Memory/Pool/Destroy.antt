-- ===== src/Memory/Pool/Destroy.antt =====
-- What `mem_pool_destroy` (src/memory.c) frees after large blocks were allocated
use lidas.Base.{
  ℕ, ◌+◌, ◌-◌, ◌*◌, ◌≤◌, ◌<◌, ◌≡◌, refl, ap, ◌∙◌, ◌≢◌, List, [], ◌∷◌, ◌++◌, arith, ne→==, length,
  append_assoc, Run, ok, fault, ◌>>=◌,
}
use lidas.Memory.Pool.{
  Large, Page, pool_siz, sizeof_large, next_offset, alloc_in, mem_pool_add, mem_pool_alloc,
  free_extra, mem_pool_destroy,
}

-- calls of `mem_pool_alloc`, with the address that `malloc` returns for each and its size
pub large_all : List (ℕ × ℕ) → List Page → Run (List Page)
unfolding mem_pool_alloc
large_all [] pool = ok pool
large_all (b ∷ bs) pool = mem_pool_alloc b.0 b.1 pool >>= (λ (ret, pool'). large_all bs pool')

-- sizes that no page can hold
abbrev AreLarge : List (ℕ × ℕ) → Type 0
AreLarge [] = Unit
AreLarge (b ∷ bs) = (pool_siz < b.1) × AreLarge bs

abbrev pub starts : List Large → List ℕ
starts [] = []
starts (s ∷ ss) = s.start ∷ starts ss

abbrev firsts : List (ℕ × ℕ) → List ℕ
firsts [] = []
firsts (b ∷ bs) = b.0 ∷ firsts bs

-- what `mem_pool_alloc` makes of a page with room for the node
added : (block size : ℕ) → Page → Page
added block size p = record p {
  start = p.start + sizeof_large;
  extra = p.extra ++ (record { at = p.start; start = block; end_ = block + size } ∷ []);
}

large-alloc :
    (block size : ℕ) (p : Page)
    → pool_siz < size
    → sizeof_large ≤ p.end_ - p.start
    → mem_pool_alloc block size (p ∷ []) ≡ ok (block, added block size p ∷ [])
unfolding alloc_in mem_pool_add mem_pool_alloc added
large-alloc block size p h room = ground (arith, h, room)

starts-append : (xs ys : List Large) → starts (xs ++ ys) ≡ starts xs ++ starts ys
starts-append [] ys = refl
starts-append (x ∷ xs) ys = ap (λ zs. x.start ∷ zs) (starts-append xs ys)

free_extra-cleared :
    (words : ℕ → ℕ) (extra : List Large)
    → ((a : ℕ) → words a ≡ 0)
    → free_extra words extra ≡ ok (starts extra)
unfolding free_extra
free_extra-cleared words [] h = refl
free_extra-cleared words (s ∷ []) h = rw (h (s.at + next_offset)) refl
free_extra-cleared words (s ∷ t ∷ rest) h = rw (free_extra-cleared words (t ∷ rest) h) refl

free_extra-dangles :
    (words : ℕ → ℕ) (extra : List Large) (new : Large)
    → ((a : ℕ) → words a ≢ 0)
    → free_extra words (extra ++ (new ∷ [])) ≡ fault
unfolding free_extra
free_extra-dangles words [] new h = rw (ne→== _ _ (h (new.at + next_offset))) refl
free_extra-dangles words (s ∷ []) new h = rw (free_extra-dangles words [] new h) refl
free_extra-dangles words (s ∷ t ∷ rest) new h = rw (free_extra-dangles words (t ∷ rest) new h) refl

-- If the page came cleared from `malloc`, `mem_pool_destroy` frees the large blocks of the page,
-- those allocated since included, each once and in the order of their allocation, and the page.
pub large_all-destroy :
    (bs : List (ℕ × ℕ)) (p : Page)
    → AreLarge bs
    → ((a : ℕ) → p.words a ≡ 0)
    → p.start + length bs * sizeof_large ≤ p.end_
    → (large_all bs (p ∷ []) >>= mem_pool_destroy)
      ≡ ok (starts p.extra ++ (firsts bs ++ (p.at ∷ [])))
unfolding large_all mem_pool_destroy added
large_all-destroy [] p a h room = rw (free_extra-cleared p.words p.extra h) refl
large_all-destroy (b ∷ bs) p a h room =
    let q = added b.0 b.1 p in
    let later = large_all-destroy bs q a.1 h (omega (arith, room)) in
    let new : Large = record { at = p.start; start = b.0; end_ = b.0 + b.1 } in
    let split = starts-append p.extra (new ∷ []) in
    let joined = append_assoc (starts p.extra) (b.0 ∷ []) (firsts bs ++ (p.at ∷ [])) in
    rw (large-alloc b.0 b.1 p a.0 (omega (arith, room)))
      (later ∙ ap (λ xs. ok (xs ++ (firsts bs ++ (p.at ∷ [])))) split ∙ ap ok joined)

-- If the page did not come cleared, `mem_pool_destroy` after a large allocation follows what stood
-- in it, since nothing sets the `next` of the last node to NULL.
pub large_all-dangles :
    (block size : ℕ) (p : Page)
    → pool_siz < size
    → ((a : ℕ) → p.words a ≢ 0)
    → p.start + sizeof_large ≤ p.end_
    → (large_all ((block, size) ∷ []) (p ∷ []) >>= mem_pool_destroy) ≡ fault
unfolding large_all mem_pool_destroy added
large_all-dangles block size p a h room =
    let new : Large = record { at = p.start; start = block; end_ = block + size } in
    let last = free_extra-dangles p.words p.extra new h in
    rw (large-alloc block size p a (omega (arith, room)), last) refl
