-- ===== src/ReadEvent/Tests.antt =====
-- `write_to_stream` and `get_content_len` on small data
use lidas.Base.{◌≡◌, refl, true, none, List, [], ◌∷◌, arith, replicate, ok, fault, success}
use lidas.ReadEvent.{took, failed, get_content_len, collect}
use lidas.ReadEvent.Body.{Chunk, collect-gives_up, collect-faults}

abbrev two_bytes : List Chunk
two_bytes = (1, []) ∷ (2, []) ∷ []

abbrev three_bytes : List Chunk
three_bytes = (3, 4 ∷ 5 ∷ []) ∷ []

collect-gives_up_test :
    collect 10 true (replicate 10 success) (replicate 10 (took [])) 5 0 [] ≡ ok none
collect-gives_up_test = collect-gives_up (replicate 10 []) [] [] 5 refl (omega arith) (omega arith)

collect-faults_test :
    collect 10 true
      (success ∷ [])
      (took (1 ∷ []) ∷ took (2 ∷ []) ∷ took [] ∷ took (3 ∷ 4 ∷ 5 ∷ []) ∷ failed ∷ [])
      9
      0
      []
    ≡ fault
collect-faults_test =
    collect-faults (two_bytes ∷ []) three_bytes [] [] 9 (omega arith) (omega arith) (omega arith)

get_content_len-none_test : get_content_len (replicate 29 none) 7 ≡ ok 0
unfolding get_content_len lidas.Http.Hash.hash_search lidas.Http.Crc.crc32_port
    lidas.Http.Crc.crc32_tab
get_content_len-none_test = refl
