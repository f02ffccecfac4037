-- ===== src/Memory/Cache.antt =====
-- `mem_cache_creat`, `mem_cache_locate`, `mem_cache_alloc` and `mem_cache_free` of src/memory.c. An
-- address is a number and NULL is 0. `cells` gives the two pointers that stand at an address while
-- its cell is free: the model is right for cells of at least the size of the two pointers (16 bytes),
-- and for others the pointers of one cell stand in those of the next. Reading or writing through NULL is a fault.
pub mod Chain
pub mod Create
mod Tests
use lidas.Base.{ℕ, zero, suc, ◌+◌, ◌-◌, ◌*◌, ◌==◌, ltb, if◌then◌else◌, Run, ok, fault}

-- `struct mem_cache`
pub record Cell : Type 0 where
  pub prev : ℕ
  pub next : ℕ

-- `struct mem_cache_head`, its address `at`, and the cells
pub record Cache : Type 0 where
  pub at : ℕ
  pub size : ℕ
  pub num : ℕ
  pub next : ℕ
  pub cells : ℕ → Cell

abbrev pub put : (ℕ → Cell) → ℕ → Cell → ℕ → Cell
put cells a c b = if a == b then c else cells b

-- the rounds of the loop of `mem_cache_locate` from the cell at `p` on
unfoldable pub locate_from : (rounds size p : ℕ) → (ℕ → Cell) → ℕ → Cell
locate_from zero size p cells = cells
locate_from (suc n) size p cells =
    locate_from n size (p + size) (put cells p (record { prev = p - size; next = p + size }))

-- `mem_cache_locate`: it returns the number of cells
unfoldable pub mem_cache_locate : Cache → (addr size : ℕ) → ℕ × Cache
unfolding locate_from
mem_cache_locate head addr size =
    let cells = put head.cells addr (record { prev = 0; next = addr + size }) in
    (head.num, record head { next = addr; cells = locate_from head.num size (addr + size) cells })

-- `sizeof (struct mem_cache_head)` on a machine with addresses of 64 bits
abbrev pub sizeof_head : ℕ
sizeof_head = 24

-- `sizeof (struct mem_cache)`
abbrev pub sizeof_cell : ℕ
sizeof_cell = 16

-- `mem_cache_creat`, with what `malloc` returned for the head and `n` cells.
-- `(*p) + sizeof (struct mem_cache_head)` counts in heads, not in bytes. The loop of `mem_cache_locate`
-- writes a cell more than the `n`: if the end of that one is behind the end of the block, that is a
-- fault.
pub mem_cache_creat : (block : ℕ) (memory : ℕ → Cell) → (size n : ℕ) → Run (ℕ × Cache)
unfolding mem_cache_locate
mem_cache_creat block memory size n =
    if block == 0
    then fault
    else let start = block + sizeof_head * sizeof_head in
      if ltb (block + sizeof_head + n * size) (start + n * size + sizeof_cell)
      then fault
      else ok (
          mem_cache_locate (record { at = block; size = size; num = n; next = 0; cells = memory })
            start size)

-- taking the first cell `a` off the chain
unfoldable pub unlink : Cache → (a : ℕ) → Run (ℕ × Cache)
unlink p a =
    if a == 0
    then fault
    else let b = (p.cells a).next in
      if b == 0
      then fault
      else let cells = put p.cells b (record { prev = p.at; next = (p.cells b).next }) in
        ok (
          a,
          record p {
            num = p.num - 1;
            next = b;
            cells = put cells a (record { prev = 0; next = 0 });
          },
        )

-- `mem_cache_alloc` of a cache that is not NULL
unfoldable pub mem_cache_alloc : Cache → Run (ℕ × Cache)
unfolding unlink
mem_cache_alloc p = if p.num == 0 then ok (0, p) else unlink p p.next

-- `mem_cache_free`
unfoldable pub mem_cache_free : (g : ℕ) → Cache → Run Cache
mem_cache_free g p =
    if g == 0
    then fault
    else ok (record p {
      next = g;
      num = p.num + 1;
      cells = put p.cells g (record { prev = p.at; next = p.next });
    })
