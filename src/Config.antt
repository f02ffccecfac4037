-- ===== src/Config.antt =====
-- src/config.c: what is read from the configuration files. The XML library gives the texts of the
-- attributes and nodes; a node list is the list of them.
pub mod Sizes
pub mod Groups
mod Tests
use lidas.Base.{
  ℕ, ◌+◌, ◌*◌, ◌%◌, ◌^◌, min, Bool, true, Option, none, List, [], ◌∷◌, ◌++◌, ltb, ◌==◌,
  if◌then◌else◌, length, replicate, Run, ok, fault, ◌>>=◌, ◌>>◌,
}
use lidas.Text.Literals.{codes}
use lidas.Text.Compare.{str_eq}
use lidas.Text.Tokens.{strtok}
use lidas.Text.Numerals.{atoi, atol}
use lidas.Http.Crc.{crc32_port}
use lidas.Http.Hash.{null, Table, hash_set, hash_search}
use lidas.Heap.{Heap, heap_init, heap_insert}

-- the last byte of a text; `*(--str)` of the empty one is in front of it
pub last_byte : List ℕ → Run ℕ
last_byte [] = fault
last_byte (c ∷ []) = ok c
last_byte (c ∷ d ∷ s) = last_byte (d ∷ s)

-- all bytes but the last
unfoldable but_last : List ℕ → List ℕ
but_last [] = []
but_last (c ∷ []) = []
but_last (c ∷ d ∷ s) = c ∷ but_last (d ∷ s)

-- the bytes of `x` in `xml_get_max`
abbrev number_room : ℕ
number_room = 10

-- `xml_get_max` of an attribute's text. `strncpy` copies the bytes before the last one and no NUL, so
-- `atoi` reads on in what was in `x`, the argument `rest`.
unfoldable xml_get_max : (rest text : List ℕ) → Run ℕ
unfolding last_byte but_last
xml_get_max rest text = last_byte text >>= (λ unit.
    let n = atoi (but_last text ++ rest) in
    if ltb number_room (length (but_last text))
    then fault
    else if unit == 75
    then ok (1024 * n % 2 ^ 64)
    else if unit == 77
    then ok (1024 * 1024 * n % 2 ^ 64)
    else if unit == 71
    then ok (1024 * 1024 * 1024 * n % 2 ^ 64)
    else ok n)

-- `xml_get_time` of an attribute's text: `atol` reads from the last byte on.
pub xml_get_time : (text : List ℕ) → Run ℕ
unfolding last_byte
xml_get_time text = last_byte text >>= (λ unit.
    let n = atol (unit ∷ []) in
    if unit == 109
    then ok (60 * n % 2 ^ 64)
    else if unit == 104
    then ok (60 * 60 * n % 2 ^ 64)
    else ok n)

-- `xml_getlen`
pub xml_getlen : {A : Type 0} → List A → ℕ
xml_getlen [] = 0
xml_getlen (n ∷ ns) = 1 + xml_getlen ns

-- `struct server_basic`, as `lida_read_default` fills it from the texts of the file
pub record ServerBasic : Type 0 where
  pub port : ℕ
  pub listener : ℕ
  pub connect : ℕ
  pub keep_alive : ℕ
  pub max_thread : ℕ

unfoldable lida_read_default :
    (port listener connect unit keep_alive max_thread : List ℕ) → ServerBasic
lida_read_default port listener connect unit keep_alive max_thread = record {
  port = atoi port;
  listener = atoi listener;
  connect = atoi connect;
  keep_alive = if str_eq unit (codes "min") then 60 * atoi keep_alive % 2 ^ 64 else atoi keep_alive;
  max_thread = atoi max_thread;
}

-- a node of a proxy group in the file, and as `struct proxy_node`
pub record Backend : Type 0 where
  pub weight : List ℕ
  pub addr : List ℕ

pub record ProxyNode : Type 0 where
  pub weight : ℕ
  pub ip : Option (List ℕ)
  pub port : ℕ

pub read_node : Backend → ProxyNode
read_node b =
    let (ip, l) = strtok (codes ":") b.addr in
    record { weight = atoi b.weight; ip = ip; port = atoi l }

-- The loop of `load_proxy_nodes`; `cells` are the addresses that `mem_cache_alloc` returns. The code
-- exits if `heap_init` or `heap_insert` returns less than 0, but 1 is what they return on an error.
pub insert_nodes :
    (rounds : ℕ) → List Backend → (cells : List ℕ) → Heap → Run (List ProxyNode × Heap)
unfolding read_node
insert_nodes rounds [] cells h = ok ([], h)
insert_nodes rounds (b ∷ bs) [] h = fault
insert_nodes rounds (b ∷ bs) (cell ∷ cells) h =
    let new = read_node b in
    heap_insert rounds cell new.weight h
    >>= (λ (r, h'). insert_nodes rounds bs cells h' >>= (λ (nodes, last). ok (new ∷ nodes, last)))

-- `load_proxy_nodes`
pub load_proxy_nodes :
    (rounds : ℕ) (allocated : Bool)
    → List Backend
    → (cells : List ℕ) → Heap
    → Run (List ProxyNode × Heap)
unfolding insert_nodes xml_getlen
load_proxy_nodes rounds allocated nodes cells h =
    heap_init allocated (xml_getlen nodes) 0 0 h >>= (λ (r, h'). insert_nodes rounds nodes cells h')

-- a group in the file, with the addresses of its nodes and its heap before
pub record GroupFile : Type 0 where
  pub id : List ℕ
  pub nodes : List Backend
  pub cells : List ℕ
  pub heap : Heap

-- The loop of `load_proxy`, with the number that `proxy_group_hash_n` has. The content of an entry
-- of `proxy_lst` is the group's place in the file.
unfoldable load_groups :
    (rounds proxy_group_hash_n place : ℕ) → List GroupFile → Table ℕ → Run (Table ℕ × List Heap)
unfolding load_proxy_nodes
load_groups rounds n place [] t = ok (t, [])
load_groups rounds n place (g ∷ gs) t = hash_set crc32_port g.id place t n null >>= (λ t'.
    load_proxy_nodes rounds true g.nodes g.cells g.heap >>= (λ (nodes, heap).
      load_groups rounds n (place + 1) gs t' >>= (λ (t'', heaps). ok (t'', heap ∷ heaps))))

-- `load_proxy`
unfoldable pub load_proxy :
    (rounds proxy_group_hash_n : ℕ) → List GroupFile → Run (Table ℕ × List Heap)
unfolding load_groups xml_getlen
load_proxy rounds n groups = load_groups rounds n 0 groups (replicate (xml_getlen groups * 2) none)

-- `search_proxy_group`, which looks into `host_lst`
unfoldable search_proxy_group :
    (id : List ℕ) (host_lst : Table ℕ) (proxy_group_hash_n : ℕ) → Run (Option ℕ)
search_proxy_group id host_lst n = hash_search crc32_port id host_lst n

-- The loop of `lida_read_hosts` over the names of the virtual hosts
unfoldable add_hosts : (host_hash_n place : ℕ) → List (List ℕ) → Table ℕ → Run (Table ℕ)
add_hosts n place [] t = ok t
add_hosts n place (name ∷ names) t =
    hash_set crc32_port name place t n null >>= (λ t'. add_hosts n (place + 1) names t')

-- `lida_read_hosts`: `host_lst` has as many entries as there are hosts, `host_hash_n` is twice that.
unfoldable pub lida_read_hosts : List (List ℕ) → Run (Table ℕ)
unfolding add_hosts xml_getlen
lida_read_hosts names = add_hosts (xml_getlen names * 2) 0 names (replicate (xml_getlen names) none)
