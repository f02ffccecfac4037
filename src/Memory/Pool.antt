-- ===== src/Memory/Pool.antt =====
-- The pools of src/memory.c: `mem_pool_creat`, `mem_pool_extend`, `mem_pool_alloc`, `mem_pool_add`
-- and `mem_pool_destroy`. A pool is the list of its pages along `next`. What `malloc` returns is an
-- argument, with the words that stand in the page it returned: it does not clear them. `free` adds
-- to the list of the addresses freed.
pub mod Alloc
pub mod Destroy
mod Tests
use lidas.Base.{
  ℕ, ◌+◌, ◌-◌, Option, none, some, List, [], ◌∷◌, ◌++◌, ltb, leb, ◌==◌, if◌then◌else◌, Run, ok,
  fault, ◌>>=◌, ◌>>◌,
}

-- `struct mem_pool_large`, with its own address
pub record Large : Type 0 where
  pub at : ℕ
  pub start : ℕ
  pub end_ : ℕ

-- `struct mem_pool_head` at the address `at`. `extra` lists the nodes from `extra` to `tail`.
-- `words` gives what `malloc` left at an address in the page.
pub record Page : Type 0 where
  pub at : ℕ
  pub start : ℕ
  pub end_ : ℕ
  pub extra : List Large
  pub words : ℕ → ℕ

abbrev pub page_siz : ℕ
page_siz = 4096

abbrev sizeof_pool_head : ℕ
sizeof_pool_head = 40

abbrev pub pool_siz : ℕ
pool_siz = 4056

abbrev pub sizeof_large : ℕ
sizeof_large = 24

-- the offset of `next` in `struct mem_pool_large`
abbrev pub next_offset : ℕ
next_offset = 16

-- `mem_pool_extend`
unfoldable mem_pool_extend : (block : ℕ) (words : ℕ → ℕ) → Run Page
mem_pool_extend block words =
    if block == 0
    then fault
    else ok (record {
      at = block;
      start = block + sizeof_pool_head;
      end_ = block + page_siz;
      extra = [];
      words = words;
    })

-- `mem_pool_creat`: the new pool, or NULL
pub mem_pool_creat : (block : ℕ) (words : ℕ → ℕ) → Option (List Page)
mem_pool_creat block words =
    if block == 0
    then none
    else some (
        record {
          at = block;
          start = block + sizeof_pool_head;
          end_ = block + page_siz;
          extra = [];
          words = words;
        }
        ∷ [])

-- The search of `mem_pool_alloc` for a page with room, and the allocation in it. If there is none,
-- the search ends with `p` NULL, and `p->next = new` writes through it.
unfoldable pub alloc_in : (size : ℕ) → List Page → Run (ℕ × List Page)
alloc_in size [] = fault
alloc_in size (p ∷ ps) =
    let rest = alloc_in size ps in
    if leb size (p.end_ - p.start)
    then ok (p.start, record p { start = p.start + size } ∷ ps)
    else (rest >>= (λ (ret, ps'). ok (ret, p ∷ ps')))

abbrev add_extra : Large → List Page → Run (List Page)
add_extra new [] = fault
add_extra new (p ∷ ps) = ok (record p { extra = p.extra ++ (new ∷ []) } ∷ ps)

-- `mem_pool_add`. Its call of `mem_pool_alloc` is for 24 bytes, so it takes them from a page.
pub mem_pool_add : (p size : ℕ) → List Page → Run (List Page)
unfolding alloc_in
mem_pool_add p size pool =
    alloc_in sizeof_large pool
    >>= (λ (new, pool'). add_extra (record { at = new; start = p; end_ = p + size }) pool')

-- `mem_pool_alloc`; `block` is what `malloc` returns for a large size.
unfoldable pub mem_pool_alloc : (block size : ℕ) → List Page → Run (ℕ × List Page)
unfolding alloc_in mem_pool_add
mem_pool_alloc block size pool =
    if ltb pool_siz size
    then (mem_pool_add block size pool >>= (λ pool'. ok (block, pool')))
    else alloc_in size pool

-- The loop of `mem_pool_destroy` over the extra blocks. `mem_pool_add` never writes the `next` of
-- the last one: it is the word that `malloc` left there, and is followed if it is not NULL.
pub free_extra : (words : ℕ → ℕ) → List Large → Run (List ℕ)
free_extra words [] = ok []
free_extra words (s ∷ []) = if words (s.at + next_offset) == 0 then ok (s.start ∷ []) else fault
free_extra words (s ∷ t ∷ rest) = free_extra words (t ∷ rest) >>= (λ freed. ok (s.start ∷ freed))

-- `mem_pool_destroy`: the addresses that it frees, in order
pub mem_pool_destroy : List Page → Run (List ℕ)
unfolding free_extra
mem_pool_destroy [] = fault
mem_pool_destroy (p ∷ []) = free_extra p.words p.extra >>= (λ freed. ok (freed ++ (p.at ∷ [])))
mem_pool_destroy (p ∷ q ∷ ps) =
    free_extra p.words p.extra
    >>= (λ freed. mem_pool_destroy (q ∷ ps) >>= (λ later. ok (freed ++ later ++ (p.at ∷ []))))
