-- ===== src/Config/Tests.antt =====
-- Small configurations
use lidas.Base.{ℕ, ◌+◌, ◌<◌, ◌≡◌, true, [], ◌∷◌, ◌++◌, ok, fault, out_of_fuel, ◌>>=◌}
use lidas.Text.Literals.{codes}
use lidas.Heap.{Heap, heap_traversal}
use lidas.Text.Numerals.{atoi}
use lidas.Config.{xml_get_time, Backend, load_proxy_nodes, load_proxy}
use lidas.Config.Sizes.{xml_get_time-last}
use lidas.Config.Groups.{load_proxy_nodes-loses, load_proxy-faults}

abbrev digit : ℕ
digit = 5

xml_get_time-last_test :
    (xml_get_time (codes "1" ++ (109 ∷ [])) ≡ ok 0)
    × (xml_get_time (codes "1" ++ (104 ∷ [])) ≡ ok 0)
    × (digit < 10 → xml_get_time (codes "1" ++ ((48 + digit) ∷ [])) ≡ ok 5)
xml_get_time-last_test = xml_get_time-last (codes "1") digit

abbrev backend : Backend
backend = record { weight = codes "3"; addr = codes "10.0.0.1:80" }

abbrev heap : Heap
heap = record { size = 0; cnt = 0; p = [] }

load_proxy_nodes-loses_example :
    (0 < atoi backend.weight
      → load_proxy_nodes 9 true (backend ∷ backend ∷ []) (64 ∷ 96 ∷ []) heap ≡ out_of_fuel)
    × ((load_proxy_nodes 9 true (backend ∷ []) (64 ∷ 96 ∷ []) heap >>= (λ r. heap_traversal r.1))
        ≡ ok (0 ∷ []))
load_proxy_nodes-loses_example = load_proxy_nodes-loses 9 64 backend backend [] (96 ∷ []) heap

load_proxy-faults_test :
    load_proxy 9 0
      (record { id = codes "a"; nodes = backend ∷ []; cells = 64 ∷ []; heap = heap } ∷ [])
    ≡ fault
load_proxy-faults_test =
    load_proxy-faults 9
      (record { id = codes "a"; nodes = backend ∷ []; cells = 64 ∷ []; heap = heap }) []
