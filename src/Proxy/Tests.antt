-- ===== src/Proxy/Tests.antt =====
-- A group of four backends, and the calls of src/proxy.c on it
use lidas.Base.{
  ◌>>=◌, ℕ, zero, suc, ◌<◌, ◌≡◌, refl, true, false, none, some, List, [], ◌∷◌, ◌++◌, arith,
  replicate, ok, fault, out_of_fuel, Status, success, failure, Returns,
}
use lidas.Text.Literals.{codes}
use lidas.Queue.{queue_in, queue_init}
use lidas.Queue.Spec
use lidas.Queue.Refine.{contents}
use lidas.Heap.{Entry, blank, Heap, heap_traversal, visit}
use lidas.Heap.Order.{IsOrdered, IsHeap}
use lidas.Snd.{wrote, as_size}
use lidas.Snd.Loop.{calls_from}
use lidas.Http.Hash.{null, Table, hash_ergodic, ergodic_from, visit_bucket, visit_from}
use lidas.Proxy.Init.{proxy_init, open_groups, open_nodes, proxy_init-faults}
use lidas.Proxy.{
  Socket, refused, fill_fds, Node, Group, socket, load_balance, proxy_heap_handler, re_connect,
  send_loop, no_pipe, said, match_proxy,
}
use lidas.Proxy.Balance.{load_balance-leaf}
use lidas.Proxy.Connect.{re_connect_lem, proxy_heap_handler-loses, match_proxy-faults}
use lidas.Proxy.Relay.{send_loop-sends, send_loop-repeats}

abbrev node : Node
node = record {
  ip = codes "10.0.0.1";
  port = 80;
  weight = 1;
  fds = record { max = 3; head = 1; tail = 0; slots = 11 ∷ 0 ∷ 0 ∷ [] };
}

abbrev item : (key datum : ℕ) → Entry
item key datum = record { key = key; datum = datum }

abbrev group : Group
group = record {
  nodes = record {
    size = 4;
    cnt = 4;
    p = blank ∷ item 9 100 ∷ item 5 200 ∷ item 4 300 ∷ item 1 400 ∷ [];
  };
  block = 4096;
  at = λ a. node;
}

group-IsOrdered : IsOrdered group.nodes.p 4
group-IsOrdered zero a b = omega (arith, a)
group-IsOrdered (suc zero) a b = omega (arith, a)
group-IsOrdered (suc (suc zero)) a b = omega arith
group-IsOrdered (suc (suc (suc zero))) a b = omega arith
group-IsOrdered (suc (suc (suc (suc zero)))) a b = omega arith
group-IsOrdered (suc (suc (suc (suc (suc n))))) a b = absurd (omega (arith, b))

group-IsHeap : IsHeap group.nodes
group-IsHeap = record { block = refl; used = omega arith; ordered = group-IsOrdered }

load_balance-leaf_example :
    Returns
      (λ (t, p, g').
        (p ≡ 400)
        × ((t, contents (g'.at p).fds) ≡ Spec.pop (contents node.fds))
        × (g'.nodes.cnt ≡ 4))
      (load_balance 4 group)
load_balance-leaf_example =
    load_balance-leaf 4 group group-IsHeap (omega arith) (omega arith)
      (record { room = refl; head_in = omega arith; tail_in = omega arith }, omega arith)

abbrev failures : ℕ
failures = 2

re_connect_lem_test :
    (failures < 5 → re_connect true (failure ∷ failure ∷ success ∷ []) 7 ≡ ok (some 7))
    × (failures ≡ 5 → re_connect true (failure ∷ failure ∷ success ∷ []) 7 ≡ ok none)
    × ((rest : List Status) → re_connect true (replicate 6 failure ++ rest) 7 ≡ ok (some 7))
re_connect_lem_test = re_connect_lem 2 7

proxy_heap_handler-loses_test :
    Returns (λ p'. p'.fds.head ≡ p'.fds.tail) (proxy_heap_handler (socket 12 ∷ socket 13 ∷ []) node)
proxy_heap_handler-loses_test =
    proxy_heap_handler-loses 12 [] node (socket 13) (ground arith, tt) refl

match_proxy-faults_test : match_proxy ((said (codes "yes"), 5) ∷ (no_pipe, 6) ∷ []) ≡ fault
match_proxy-faults_test = match_proxy-faults ((said (codes "yes"), 5) ∷ (no_pipe, 6) ∷ [])

send_loop-sends_test :
    send_loop true (wrote 3 ∷ wrote 2 ∷ []) 100 5 ≡ ok (calls_from 100 5 (3 ∷ 2 ∷ []))
send_loop-sends_test = send_loop-sends 100 3 (2 ∷ []) (omega arith, (omega arith, tt)) (omega arith)

send_loop-repeats_test : send_loop false (wrote 5 ∷ wrote 5 ∷ []) 100 5 ≡ out_of_fuel
unfolding as_size
send_loop-repeats_test =
    send_loop-repeats (wrote 5 ∷ wrote 5 ∷ []) 100 5 (ground arith, (ground arith, tt))

-- a bucket with the group at 500, whose heap has NULL first, or the node at 100
abbrev proxy_lst : Table ℕ
proxy_lst = none ∷ some (record { content = 500; attri = codes "a"; next = null }) ∷ []

abbrev groups : (first : ℕ) → ℕ → Heap
groups first a = record { size = 2; cnt = 1; p = blank ∷ item 3 first ∷ blank ∷ [] }

abbrev sockets : ℕ → List Socket
sockets a = socket 11 ∷ socket 12 ∷ socket 13 ∷ refused ∷ []

one_group : hash_ergodic 2 proxy_lst ≡ ok (500 ∷ [])
unfolding hash_ergodic ergodic_from visit_bucket visit_from
one_group = refl

null_first : heap_traversal (groups 0 500) ≡ ok (0 ∷ [])
unfolding heap_traversal visit
null_first = refl

proxy_init-faults_example : proxy_init 2 proxy_lst (groups 0) sockets (λ a. node) ≡ fault
proxy_init-faults_example =
    proxy_init-faults 2 proxy_lst (groups 0) sockets (λ a. node) 500 [] [] one_group null_first

-- The first socket of a node of weight 2, once its group is opened
proxy_init_test :
    (proxy_init 2 proxy_lst (groups 100) sockets (λ a. record node { weight = 2 })
      >>= (λ at. ok ((at 100).fds.slots)))
    ≡ ok (11 ∷ 12 ∷ [])
unfolding proxy_init open_groups open_nodes hash_ergodic ergodic_from visit_bucket visit_from
    heap_traversal visit proxy_heap_handler fill_fds queue_in queue_init
proxy_init_test = refl
