-- ===== src/Http/Hash/Tests.antt =====
-- The table and its hash at small inputs, and their theorems at inputs that meet their hypotheses.
use lidas.Base.{ℕ, ◌<◌, ◌≡◌, refl, none, some, List, [], ◌∷◌, arith, set, ok, fault, ◌>>=◌, Returns}
use lidas.Text.Literals.{codes}
use lidas.Http.Crc.{crc32_tab, crc32, crc32_port}
use lidas.Http.Crc.Bitwise.{reference, crc32-reference, crc32_port-bucket}
use lidas.Text.Compare.{str_eq}
use lidas.Http.Hash.{Table, null, hash_set, hash_search}
use lidas.Http.Hash.Fill.{
  slot, IsClean, node, or_else, first_in, fill, answer, bucket, hash_set_lem, hash_search_lem,
  fill_lem, hash_search-fill, hash_search-first, blank-IsClean,
}

-- the check value of CRC-32
check_value : crc32 0 (codes "123456789") ≡ 0xcbf4_3926
unfolding crc32 crc32_tab
check_value = refl

abbrev three : Table ℕ
three = none ∷ none ∷ none ∷ []

three-IsClean : IsClean 3 three
three-IsClean = blank-IsClean 3 (omega arith)

abbrev ab : List (List ℕ × ℕ)
ab = (codes "a", 1) ∷ (codes "b", 2) ∷ (codes "a", 3) ∷ []

-- in a table of one bucket the second key is not found
one_bucket : (do u ← fill 1 (none ∷ []) ab; hash_search crc32_port (codes "b") u 1) ≡ ok none
unfolding fill hash_set hash_search crc32_port crc32_tab str_eq
one_bucket = refl

crc32-reference_example : crc32 7 (1 ∷ 255 ∷ []) ≡ reference 7 (1 ∷ 255 ∷ [])
crc32-reference_example = crc32-reference 7 (1 ∷ 255 ∷ []) (omega arith)

crc32_port-bucket_test :
    (0 < 29 → Returns (λ i. i < 29) (crc32_port (codes "Host") 29))
    × (◌≡◌ {A = ℕ} 29 0 → crc32_port (codes "Host") 29 ≡ fault)
crc32_port-bucket_test = crc32_port-bucket (codes "Host") 29

hash_set_lem_test :
    hash_set crc32_port (codes "a") 1 three 3 null
    ≡ ok (
        set three
          (bucket (codes "a") 3)
          (or_else (slot three (bucket (codes "a") 3)) (some (node (codes "a") 1))))
hash_set_lem_test = hash_set_lem 3 (omega arith) three three-IsClean (codes "a") 1

hash_search_lem_test :
    hash_search crc32_port (codes "a") three 3
    ≡ ok (answer (codes "a") (slot three (bucket (codes "a") 3)))
hash_search_lem_test = hash_search_lem 3 (omega arith) three three-IsClean (codes "a")

fill_lem_test :
    Returns
      (λ u. IsClean 3 u × ((i : ℕ) → i < 3 → slot u i ≡ or_else (slot three i) (first_in 3 i ab)))
      (fill 3 three ab)
fill_lem_test = fill_lem 3 (omega arith) ab three three-IsClean

hash_search-fill_example :
    (do u ← fill 3 three ab; hash_search crc32_port (codes "b") u 3)
    ≡ ok (answer (codes "b") (first_in 3 (bucket (codes "b") 3) ab))
hash_search-fill_example = hash_search-fill 3 (omega arith) (codes "b") ab

hash_search-first_test :
    (do u ← fill 3 three ab; hash_search crc32_port (codes "a") u 3) ≡ ok (some 1)
hash_search-first_test =
    hash_search-first 3 (omega arith) (codes "a") 1 ((codes "b", 2) ∷ (codes "a", 3) ∷ [])
