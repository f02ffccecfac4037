-- ===== src/QueueChain.antt =====
-- src/queue_chain.c: the linked queue in which the idle threads stand. A node stands at an address,
-- 0 being NULL. The address that `malloc` or `mem_cache_alloc` returned for a new node is an
-- argument; the address given to `free` or `mem_cache_free` is a result. An access through NULL is a
-- fault.
pub mod Links
pub mod Enqueue
pub mod Dequeue
mod Tests
use lidas.Base.{ℕ, ◌+◌, ◌-◌, ◌||◌, ◌==◌, if◌then◌else◌, Run, ok, fault}

-- `struct queue_chain_t`
pub record Node : Type 0 where
  pub prev : ℕ
  pub next : ℕ
  pub datum : ℕ

-- `struct queue_chain_ctl`, and the nodes. New nodes are linked at `head`, and taken at `tail`.
pub record Control : Type 0 where
  pub head : ℕ
  pub tail : ℕ
  pub cnt : ℕ
  pub nodes : ℕ → Node

abbrev pub put_node : (ℕ → Node) → ℕ → Node → ℕ → Node
put_node nodes a n b = if a == b then n else nodes b

-- `queue_chain_in`; `p` is the address of the new node
pub queue_chain_in : (p datum : ℕ) → Control → Run Control
queue_chain_in p datum opt =
    if p == 0
    then fault
    else if opt.head == 0
    then ok (record {
      head = p;
      tail = p;
      cnt = 1;
      nodes = put_node opt.nodes p (record { prev = 0; next = 0; datum = datum });
    })
    else let new = put_node opt.nodes p (record { prev = opt.head; next = 0; datum = datum }) in
      ok (record opt {
        head = p;
        cnt = opt.cnt + 1;
        nodes = put_node new opt.head (record (new opt.head) { next = p });
      })

-- `queue_chain_out`: the data or NULL, the address freed (0 if none), and the queue
pub queue_chain_out : Control → Run (ℕ × ℕ × Control)
queue_chain_out opt =
    if (opt.tail == 0) || (opt.cnt == 0)
    then ok (0, 0, opt)
    else let t = opt.nodes opt.tail in
      if t.next == 0
      then fault
      else let n = opt.nodes t.next in
        ok (
          t.datum,
          n.prev,
          record opt {
            tail = t.next;
            cnt = opt.cnt - 1;
            nodes = put_node opt.nodes t.next (record n { prev = 0 });
          },
        )
