-- ===== src/Proxy.antt =====
-- src/proxy.c: the groups of backends. A node of a group stands at an address, its queue of sockets
-- is the ring of src/queue.c, and the group's heap holds addresses. What `connect` and the system's
-- other calls return is an argument.
pub mod Balance
pub mod Connect
pub mod Relay
pub mod Pass
mod Init
mod Tests
use lidas.Base.{
  ℕ, zero, suc, ◌+◌, ◌-◌, ◌*◌, ◌%◌, Bool, true, false, ◌&&◌, Option, none, some, List, [], ◌∷◌,
  ◌==◌, if◌then◌else◌, take, Run, ok, fault, out_of_fuel, ◌>>=◌, ◌>>◌, or_fault, Status, success,
  failure,
}
use lidas.Queue.{Queue, queue_init, queue_in, queue_out}
use lidas.Heap.{Entry, Heap, load, heap_insert, heap_max_delete, heap_traversal}
use lidas.Text.Compare.{str_eq}
use lidas.Text.Literals.{codes}
use lidas.Snd.{Written, as_size, word, eagain}

-- `struct proxy_node`
pub record Node : Type 0 where
  pub ip : List ℕ
  pub port : ℕ
  pub weight : ℕ
  pub fds : Queue

-- a group's heap, the address of the block of its entries, and the nodes by address
pub record Group : Type 0 where
  pub nodes : Heap
  pub block : ℕ
  pub at : ℕ → Node

abbrev pub put_node : (ℕ → Node) → ℕ → Node → ℕ → Node
put_node nodes a n b = if a == b then n else nodes b

-- the size of `struct heap_t`
abbrev pub sizeof_entry : ℕ
sizeof_entry = 16

-- `load_balance`: the socket and the node. `heap_max_delete` returns the address of slot 1, whose
-- contents are read after the deletion, and that address, not the node's, is inserted again.
pub load_balance : (rounds : ℕ) → Group → Run (ℕ × ℕ × Group)
load_balance rounds g = heap_max_delete rounds g.nodes >>= (λ (slot, nodes). or_fault slot >>= (λ i.
    load nodes.p i >>= (λ n. queue_out (g.at n.datum).fds >>= (λ (t, fds).
      let at = put_node g.at n.datum (record (g.at n.datum) { fds = fds }) in
      heap_insert rounds (g.block + i * sizeof_entry) (at n.datum).weight nodes
      >>= (λ (r, nodes'). ok (t, n.datum, record g { nodes = nodes'; at = at }))))))

-- `ret_proxy_fd`
pub ret_proxy_fd : (fd p : ℕ) → (ℕ → Node) → Run (ℕ → Node)
ret_proxy_fd fd p nodes =
    queue_in (nodes p).fds fd
    >>= (λ (r, fds). ok (put_node nodes p (record (nodes p) { fds = fds })))

-- what `slaveTCP` returns: a socket, or -1
pub data Socket : Type 0 where
  socket : ℕ → Socket
  refused : Socket

-- The loop of `proxy_heap_handler` for a node with `cnt` sockets to go, with what each call of
-- `slaveTCP` returns. The call is made before `cnt` is tested.
pub fill_fds : List Socket → (cnt : ℕ) → Queue → Run Queue
fill_fds [] cnt fds = out_of_fuel
fill_fds (s ∷ ss) zero fds = ok fds
fill_fds (refused ∷ ss) (suc cnt) fds = ok fds
fill_fds (socket fd ∷ ss) (suc cnt) fds =
    if fd == 0 then ok fds else (queue_in fds fd >>= (λ (r, fds'). fill_fds ss cnt fds'))

-- `proxy_heap_handler`
pub proxy_heap_handler : List Socket → Node → Run Node
unfolding fill_fds
proxy_heap_handler sockets p =
    fill_fds sockets p.weight (queue_init p.weight 0 []) >>= (λ fds. ok (record p { fds = fds }))

-- The loop of `re_connect`: `cnt` after it. The list says of each `connect` whether it succeeds; `cnt`
-- is an `int`, of which only the value 0 is told apart after the loop.
pub connect_loop : List Status → (cnt : ℕ) → Run (Option ℕ)
connect_loop [] cnt = out_of_fuel
connect_loop (success ∷ rs) cnt = ok (some cnt)
connect_loop (failure ∷ rs) zero = ok none
connect_loop (failure ∷ rs) (suc cnt) = connect_loop rs cnt

-- `re_connect`: the socket or -1. After the loop, `cnt` is -1 if it ran out; `none` stands for it.
pub re_connect : (valid_ip : Bool) → List Status → (pfd : ℕ) → Run (Option ℕ)
unfolding connect_loop
re_connect false results pfd = ok none
re_connect true results pfd = connect_loop results 5 >>= (λ left. elim left [
  | none ↦ ok (some pfd)
  | some cnt ↦ if cnt == 0 then ok none else ok (some pfd)
])

-- The loops of `proxy_mute_post` that send, `size_t` results being never below 0: the calls of `write` before it ends. The second of them
-- (`counts` false) moves neither its pointer nor `rest`.
pub send_loop : (counts : Bool) → List Written → (p rest : ℕ) → Run (List (ℕ × ℕ))
unfolding as_size
send_loop counts [] p rest = out_of_fuel
send_loop counts (w ∷ ws) p rest =
    let cur = as_size w in
    let p' = if counts then (p + cur) % word else p in
    let rest' = if counts then (rest + (word - cur)) % word else rest in
    let later = send_loop counts ws p' rest' in
    let call : ℕ × ℕ = (p, rest) in
    if cur == 0
    then ok (call ∷ [])
    else if counts && (rest' == 0)
    then ok (call ∷ [])
    else (later >>= (λ calls. ok (call ∷ calls)))

-- the perl script's answers for the patterns of a virtual host, as `match_proxy` reads them
pub data Answer : Type 0 where
  no_pipe : Answer
  said : List ℕ → Answer

-- `match_proxy` over the patterns of `q->active`. `fgets (ret, 3, pipe)` keeps two bytes. The loop
-- tests the pointer that it counts up, not what it points to, so it does not stop at the end.
pub match_proxy : List (Answer × ℕ) → Run ℕ
match_proxy [] = fault
match_proxy ((no_pipe, group) ∷ rest) = match_proxy rest
match_proxy ((said line, group) ∷ rest) =
    if str_eq (take 2 line) (codes "yes") then ok group else match_proxy rest
