-- ===== src/Proxy/Init.antt =====
-- `slaveTCP`, `proxy_hash_handler` and `proxy_init` of src/proxy.c: the sockets to the backends, opened
-- when a listener starts. What the system returns is an argument. `proxy_hash_handler` calls
-- `heap_ergodic`, which no file defines: it is read as `heap_traversal`.
use lidas.Base.{
  ◌>>=◌, ℕ, ◌≡◌, ◌≢◌, refl, ◌∙◌, ◌==◌, if◌then◌else◌, Option, none, some, List, [], ◌∷◌, Run, ok,
  fault, ap, sym, Status, success, failure, bind-ok, ok-inj, arith,
}
use lidas.Http.Hash.{Table, hash_ergodic}
use lidas.Heap.{Heap, heap_traversal}
use lidas.Proxy.{Node, put_node, Socket, socket, refused, proxy_heap_handler}

-- `slaveTCP`, with the results of `socket`, `inet_addr` and `connect`
slave_tcp : (sock : Option ℕ) (valid_ip connected : Status) → Socket
slave_tcp none valid_ip connected = refused
slave_tcp (some fd) failure connected = refused
slave_tcp (some fd) success failure = refused
slave_tcp (some fd) success success = socket fd

-- `proxy_heap_handler` of the node at an address
abbrev pub open_node : List Socket → (ℕ → Node) → (d : ℕ) → Run Node
open_node sockets at d = if d == 0 then fault else proxy_heap_handler sockets (at d)

-- what the two handlers do for the nodes that they are called with; `sockets` gives for each node
-- what its calls of `slaveTCP` return
unfoldable pub open_nodes : (sockets : ℕ → List Socket) → List ℕ → (ℕ → Node) → Run (ℕ → Node)
open_nodes sockets [] at = ok at
open_nodes sockets (d ∷ ds) at = do
  n ← open_node (sockets d) at d
  open_nodes sockets ds (put_node at d n)

-- `proxy_hash_handler` for one group after the other
unfoldable pub open_groups :
    (sockets : ℕ → List Socket) → (groups : ℕ → Heap) → List ℕ → (ℕ → Node) → Run (ℕ → Node)
unfolding open_nodes
open_groups sockets groups [] at = ok at
open_groups sockets groups (g ∷ gs) at = do
  ds ← heap_traversal (groups g)
  at' ← open_nodes sockets ds at
  open_groups sockets groups gs at'

-- `proxy_init`; the content of an entry of `proxy_lst` is the address of a group
unfoldable pub proxy_init :
    (proxy_lst_len : ℕ)
    → Table ℕ
    → (groups : ℕ → Heap) (sockets : ℕ → List Socket) → (ℕ → Node)
    → Run (ℕ → Node)
unfolding open_groups
proxy_init proxy_lst_len proxy_lst groups sockets at =
    hash_ergodic proxy_lst_len proxy_lst >>= (λ gs. open_groups sockets groups gs at)

abbrev NotAmong : ℕ → List ℕ → Type 0
NotAmong a [] = Unit
NotAmong a (d ∷ ds) = (a ≢ d) × NotAmong a ds

put_node-other : (at : ℕ → Node) (d : ℕ) (n : Node) (a : ℕ) → a ≢ d → put_node at d n a ≡ at a
put_node-other at d n a h = ground (arith, h)

-- A node that the handlers are not called with keeps its sockets.
open_nodes-other :
    (sockets : ℕ → List Socket) (ds : List ℕ) (at at' : ℕ → Node) (a : ℕ)
    → NotAmong a ds
    → open_nodes sockets ds at ≡ ok at'
    → at' a ≡ at a
unfolding open_nodes
open_nodes-other sockets [] at at' a h e = ap (λ f. f a) (sym (ok-inj _ _ e))
open_nodes-other sockets (d ∷ ds) at at' a h e =
    let (n, opened, rest) = bind-ok (open_node (sockets d) at d) _ at' e in
    open_nodes-other sockets ds (put_node at d n) at' a h.1 rest ∙ put_node-other at d n a h.0

-- If the groups share no node, a node that is opened first ends as `proxy_heap_handler` leaves it.
open_nodes-first :
    (sockets : ℕ → List Socket) (d : ℕ) (ds : List ℕ) (at at' : ℕ → Node)
    → NotAmong d ds
    → open_nodes sockets (d ∷ ds) at ≡ ok at'
    → open_node (sockets d) at d ≡ ok (at' d)
unfolding open_nodes
open_nodes-first sockets d ds at at' h e =
    let (n, opened, rest) = bind-ok (open_node (sockets d) at d) _ at' e in
    let kept : at' d ≡ n =
      open_nodes-other sockets ds (put_node at d n) at' d h rest ∙ ground arith in
    rw kept opened

-- If the heap of the first group has NULL in the place of its first node, as `heap_init` makes it,
-- `proxy_init` reads through NULL.
pub proxy_init-faults :
    (len : ℕ) (t : Table ℕ) (groups : ℕ → Heap) (sockets : ℕ → List Socket) (at : ℕ → Node) (g : ℕ)
    (gs ds : List ℕ)
    → hash_ergodic len t ≡ ok (g ∷ gs)
    → heap_traversal (groups g) ≡ ok (0 ∷ ds)
    → proxy_init len t groups sockets at ≡ fault
unfolding proxy_init open_groups open_nodes
proxy_init-faults len t groups sockets at g gs ds found null = rw (found, null) refl
