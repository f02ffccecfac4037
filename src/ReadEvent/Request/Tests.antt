-- ===== src/ReadEvent/Request/Tests.antt =====
-- A request whose only header names its host
use lidas.Base.{
  ℕ, ◌-◌, ◌^◌, ◌≡◌, refl, none, some, List, [], ◌∷◌, arith, replicate, Run, ok, fault, ◌>>=◌,
  success,
}
use lidas.Text.Literals.{codes}
use lidas.Text.Compare.{str_eq}
use lidas.Text.Numerals.Decimal.{decimal}
use lidas.Http.Crc.{crc32_port, crc32_tab}
use lidas.Http.Hash.{Table, null, hash_set, hash_search}
use lidas.Http.Parser.{method_test, protocal_test, http_parser, c_string}
use lidas.Http.Parser.Lines.{Header, IsHeader}
use lidas.Http.Parser.Format.{Line, IsLine, NoNul, print_request}
use lidas.Memory.Pool.{Page, mem_pool_alloc}
use lidas.ReadEvent.{took, get_content_len}
use lidas.ReadEvent.Request.{ConfigInfo, host_search, file_search, read_head, place_head}
use lidas.ReadEvent.Body.{Chunk}
use lidas.ReadEvent.Head.{read_head-reads_of, place_head-unreserved}
use lidas.ReadEvent.Host.{list_of, host_search-faults, file_search-none}
use lidas.ReadEvent.Length.{get_content_len_lem}

abbrev get_root : Line
get_root = record { method = (71, codes "ET"); url = (47, []); protocal = (72, codes "TTP/1.1") }

abbrev host : Header
host = record { initial = 104; name = codes "ost"; value = codes "lida" }

get_root-IsLine : IsLine get_root
unfolding method_test protocal_test str_eq
get_root-IsLine = record {
  known = refl;
  version = refl;
  method = ground arith;
  url = ground arith;
  protocal = ground arith;
}

host-IsHeader : IsHeader host
host-IsHeader = record {
  name = ground arith;
  one_line = ground arith;
  value = ground arith;
  unspaced = refl;
}

host-NoNul : NoNul (print_request get_root (host ∷ []) (codes "hi"))
unfolding print_request c_string
host-NoNul = refl

host_search-faults_test :
    (http_parser null (replicate 29 none) (print_request get_root (host ∷ []) (codes "hi"))
      >>= list_of
      >>= (λ list. host_search list (none ∷ []) 1))
    ≡ fault
host_search-faults_test =
    host_search-faults get_root host [] (codes "hi") (none ∷ []) 1 get_root-IsLine
      (host-IsHeader, tt) tt host-NoNul

abbrev site : ConfigInfo
site = record { hostname = codes "/srv/lida"; frontpage = codes "/index.html" }

file_search-none_test :
    file_search
      (codes "GET")
      site
      (some (codes "/a.html"))
      (record { path = some (codes "/"); stat = λ path. success })
      []
    ≡ ok (none, [])
file_search-none_test =
    file_search-none (codes "GET") site (codes "/a.html")
      (record { path = some (codes "/"); stat = λ path. success }) []

abbrev pieces : List Chunk
pieces = (71, 69 ∷ []) ∷ (84, []) ∷ []

read_head-reads_of_example :
    read_head (took (71 ∷ 69 ∷ []) ∷ took (84 ∷ []) ∷ took [] ∷ []) 0 5 (0 ∷ 0 ∷ 0 ∷ 0 ∷ 0 ∷ [])
    ≡ ok (0, 71 ∷ 69 ∷ 84 ∷ 0 ∷ 0 ∷ [], 2, [])
read_head-reads_of_example =
    read_head-reads_of pieces [] [] (0 ∷ 0 ∷ 0 ∷ 0 ∷ 0 ∷ []) (omega arith) (omega arith)

abbrev page : Page
page = record { at = 8192; start = 8232; end_ = 12288; extra = []; words = λ a. 0 }

abbrev used : Page
used = record { at = 8192; start = 8262; end_ = 12288; extra = []; words = λ a. 0 }

-- the 30 bytes for the date of the answer
place_head-unreserved_test :
    (mem_pool_alloc 0 0 (page ∷ []) ≡ ok (8232, page ∷ []))
    × (place_head 0 (71 ∷ 69 ∷ 84 ∷ 0 ∷ 0 ∷ []) [] (page ∷ []) ≡ ok (71 ∷ 69 ∷ 84 ∷ [], page ∷ []))
    × (mem_pool_alloc 0 30 (page ∷ []) ≡ ok (8232, used ∷ []))
unfolding c_string
place_head-unreserved_test =
    place_head-unreserved (71 ∷ 69 ∷ 84 ∷ 0 ∷ 0 ∷ []) [] page [] 30 (omega arith) (omega arith)
      (omega arith) (omega arith) (omega arith) (omega arith)

-- a table with the one entry
abbrev length_entry : Run (Table (List ℕ))
length_entry = hash_set crc32_port (codes "Content-Length") (decimal 5) (replicate 29 none) 29 null

table : Table (List ℕ)
unfolding hash_set crc32_port crc32_tab
table = elim length_entry [ ok t ↦ t | _ ↦ [] ]

table-holds : hash_search crc32_port (codes "Content-Length") table 29 ≡ ok (some (decimal 5))
unfolding table hash_search hash_set crc32_port crc32_tab str_eq
table-holds = refl

get_content_len_lem_example : get_content_len table 7 ≡ ok (2 ^ 64 - 2)
get_content_len_lem_example = get_content_len_lem table 5 7 table-holds (omega arith) (omega arith)
