-- ===== src/Heap.antt =====
-- src/heap.c and src/heap.h: the array of weighted entries in which a proxy group keeps its nodes.
-- A call that updates `*hHeap` returns the new heap, and an access outside the block `p` is a
-- fault. Each loop takes its rounds as fuel; the theorems below say how many are enough, or that no
-- number is. `size` and `cnt` stay below 2 ^ 31, so no sum or product of the code wraps.
pub mod Order
pub mod Occurrences
pub mod Insert
pub mod Diverge
pub mod Delete
pub mod Reinsert
mod Tests
use lidas.Base.{
  ◌>>=◌, ℕ, zero, suc, ◌+◌, ◌-◌, ◌*◌, ◌/◌, Bool, Option, none, some, List, [], ◌∷◌, ltb, leb, ◌==◌,
  if◌then◌else◌, length, get_elem?, set, replicate, Run, ok, fault, out_of_fuel, or_fault, Status,
  success, failure,
}

-- `struct heap_t`; `datum` is its `data`, an address
pub record Entry : Type 0 where
  pub key : ℕ
  pub datum : ℕ

-- `struct heap_h`: `p` is the block of `size + 1` entries
pub record Heap : Type 0 where
  pub size : ℕ
  pub cnt : ℕ
  pub p : List Entry

-- what `calloc` leaves in an entry
abbrev pub blank : Entry
blank = record { key = 0; datum = 0 }

-- `p[i]`
abbrev pub load : List Entry → ℕ → Run Entry
load p i = or_fault (get_elem? p i)

-- `p[i] = e`
abbrev pub store : List Entry → ℕ → Entry → Run (List Entry)
store p i e = if ltb i (length p) then ok (set p i e) else fault

-- `heap_init`, with the outcome of its `calloc`; 1 is the error code
pub heap_init : (allocated : Bool) → (size datum key : ℕ) → Heap → Run (Status × Heap)
heap_init allocated size datum key h =
    if allocated
    then (do
      p ← store (replicate (size + 1) blank) 1 (record { key = key; datum = datum })
      ok (success, record { size = size; cnt = 1; p = p }))
    else ok (failure, record { size = size; cnt = 1; p = [] })

-- the `for` of `heap_insert`: entries move down from `i / 2` to `i` while their key is smaller
pub sift : (fuel : ℕ) → List Entry → (i key : ℕ) → Run (List Entry × ℕ)
sift zero p i key = out_of_fuel
sift (suc fuel) p i key = do
  above ← load p (i / 2)
  let next : Run (List Entry × ℕ) = do q ← store p i above; sift fuel q (i / 2) key
  if ltb above.key key then next else ok (p, i)

-- `heap_insert`
pub heap_insert : (fuel : ℕ) → (datum key : ℕ) → Heap → Run (Status × Heap)
heap_insert fuel datum key h = if leb h.size h.cnt then ok (failure, h) else do
  (p, i) ← sift fuel h.p (h.cnt + 1) key
  q ← store p i (record { key = key; datum = datum })
  ok (success, record h { cnt = h.cnt + 1; p = q })

-- the child of `i` that the loop of `heap_max_delete` looks at
pub choose_child : List Entry → (cnt i : ℕ) → Run ℕ
choose_child p cnt i =
    let child = i * 2 in
    let both : Run ℕ = do
      r ← load p (child + 1)
      l ← load p child
      ok (if ltb l.key r.key then child + 1 else child)
    in if child == cnt then ok child else both

-- the `for` of `heap_max_delete`
pub percolate : (fuel : ℕ) → List Entry → (cnt i : ℕ) → Entry → Run (List Entry × ℕ)
percolate zero p cnt i last = out_of_fuel
percolate (suc fuel) p cnt i last =
    let round : Run (List Entry × ℕ) = do
      child ← choose_child p cnt i
      c ← load p child
      let move : Run (List Entry × ℕ) = do q ← store p i c; percolate fuel q cnt child last
      if ltb c.key last.key then move else ok (p, i)
    in if leb (i * 2) cnt then round else ok (p, i)

-- `heap_max_delete`. The result is the address `&p[1]`, given as the index 1, or `none` for NULL.
pub heap_max_delete : (fuel : ℕ) → Heap → Run (Option ℕ × Heap)
heap_max_delete fuel h = if h.cnt == 0 then ok (none, h) else do
  last ← load h.p h.cnt
  (p, i) ← percolate fuel h.p (h.cnt - 1) 1 last
  q ← store p i last
  ok (some 1, record h { cnt = h.cnt - 1; p = q })

-- the rounds of `heap_traversal` from `i` on: the addresses that the handler is called with
unfoldable pub visit : (rounds : ℕ) → List Entry → (i : ℕ) → Run (List ℕ)
visit zero p i = ok []
visit (suc n) p i = do e ← load p i; rest ← visit n p (i + 1); ok (e.datum ∷ rest)

-- `heap_traversal` of a heap that is not NULL (the code reads `hHeap->p` before it tests that)
unfoldable pub heap_traversal : Heap → Run (List ℕ)
heap_traversal h = visit h.cnt h.p 1
