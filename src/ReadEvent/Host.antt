-- ===== src/ReadEvent/Host.antt =====
-- The host and the file of a request: what `host_search` and `file_search` (src/read_event.c) find
use lidas.Base.{
  ℕ, ◌≡◌, refl, sym, ap, ◌∙◌, inl, inr, false, not, ◌&&◌, Option, none, some, List, [], ◌∷◌, arith,
  ◌==◌, replicate, Bool-cases, Run, ok, fault, ◌>>=◌, or_fault, IfOk, IfOk-ok, IfOk-fault,
}
use lidas.Text.Compare.{str_eq}
use lidas.Text.Literals.{codes}
use lidas.Http.Crc.{crc32_port}
use lidas.Http.Hash.{Table, null, hash_search}
use lidas.Http.Hash.Fill.{bucket, first_in, answer, fill, hash_search-fill, blank-IsClean}
use lidas.Http.Parser.{Request, http_parser}
use lidas.Http.Parser.Lines.{Header, key, AreHeaders, pairs}
use lidas.Http.Parser.Format.{Line, IsLine, NoNul, print_request, parsed, http_parser-print}
use lidas.Memory.Pool.{Page}
use lidas.ReadEvent.Request.{ConfigInfo, Disk, host_search, file_search}

abbrev pub host : List ℕ
host = codes "host"

-- no header of the list has the name `host`, spelled like that
abbrev pub LackHost : List Header → Type 0
LackHost [] = Unit
LackHost (h ∷ hs) = (str_eq (key h) host ≡ false) × LackHost hs

-- no pair of the list has the key `host`
abbrev NoHost : List (List ℕ × List ℕ) → Type 0
NoHost [] = Unit
NoHost ((k, v) ∷ kvs) = (str_eq k host ≡ false) × NoHost kvs

pairs-NoHost : (hs : List Header) → LackHost hs → NoHost (pairs hs)
pairs-NoHost [] l = tt
pairs-NoHost (h ∷ hs) l = (l.0, pairs-NoHost hs l.1)

answer-NoHost :
    (i : ℕ) (kvs : List (List ℕ × List ℕ)) → NoHost kvs → answer host (first_in 29 i kvs) ≡ none
unfolding answer first_in
answer-NoHost i [] l = refl
answer-NoHost i ((k, v) ∷ kvs) l = elim (Bool-cases (bucket k 29 == i)) [
  | inl here ↦ rw (here, l.0) refl
  | inr further ↦ rw further (answer-NoHost i kvs l.1)
]

line_feed : (s : List ℕ) → str_eq (10 ∷ s) host ≡ false
unfolding str_eq
line_feed s = refl

-- the list of the headers, of the request that the parser returns
abbrev pub list_of : Option Request → Run (Table (List ℕ))
list_of none = fault
list_of (some r) = ok r.list

-- On a request as clients write it, without a NUL, whose table came from memory that was all zero, `host_search`
-- reads through NULL if no header but the first has the name `host`: the name of the first one has a
-- line feed in front, and `Host` is another name.
pub host_search-faults :
    (l : Line) (h : Header) (hs : List Header) (body : List ℕ) (host_lst : Table ConfigInfo)
    (host_hash_n : ℕ)
    → IsLine l
    → AreHeaders (h ∷ hs)
    → LackHost hs
    → NoNul (print_request l (h ∷ hs) body)
    → (http_parser null (replicate 29 none) (print_request l (h ∷ hs) body)
        >>= list_of
        >>= (λ list. host_search list host_lst host_hash_n))
      ≡ fault
unfolding parsed host_search
host_search-faults l h hs body host_lst n is are lack plain =
    let blank : Table (List ℕ) = replicate 29 none in
    let ps = (10 ∷ key h, h.value) ∷ pairs hs in
    let named : NoHost ps = (line_feed (key h), pairs-NoHost hs lack) in
    let found : (fill 29 blank ps >>= λ u. hash_search crc32_port host u 29) ≡ ok none =
      hash_search-fill 29 (omega arith) host ps ∙ ap ok (answer-NoHost (bucket host 29) ps named) in
    let (u, e1, parses) =
      http_parser-print l h hs body blank is are plain (blank-IsClean 29 (omega arith)) in
    let e2 : hash_search crc32_port host u 29 ≡ ok none =
      sym (ap (λ m. m >>= λ v. hash_search crc32_port host v 29) e1) ∙ found in
    ap (λ m. m >>= list_of >>= (λ list. host_search list host_lst n)) parses
    ∙ ap (λ m. m >>= (λ name. or_fault name >>= (λ k. hash_search crc32_port k host_lst n))) e2

-- `file_search` never finds a file: for every method, host and target it returns NULL, and takes
-- nothing from the pool. The saved pointer of `strtok_r` is not NULL, and the test on it is the wrong
-- way round.
pub file_search-none :
    (method : List ℕ) (q : ConfigInfo) (u : List ℕ) (disk : Disk) (pool : List Page)
    → file_search method q (some u) disk pool ≡ ok (none, pool)
unfolding file_search
file_search-none method q u disk pool =
    elim (Bool-cases (not (str_eq method (codes "GET")) && not (str_eq method (codes "HEAD")))) [
      | inl other ↦ rw other refl
      | inr known ↦ rw known refl
    ]

-- Without a target there is none either, if it returns.
pub file_search-IfOk :
    (method : List ℕ) (q : ConfigInfo) (url : Option (List ℕ)) (disk : Disk) (pool : List Page)
    → IfOk (λ r. r.0 ≡ none) (file_search method q url disk pool)
unfolding file_search
file_search-IfOk method q (some u) disk pool =
    rw (file_search-none method q u disk pool) (IfOk-ok refl)
file_search-IfOk method q none disk pool =
    elim (Bool-cases (not (str_eq method (codes "GET")) && not (str_eq method (codes "HEAD")))) [
      | inl other ↦ rw other (IfOk-ok refl)
      | inr known ↦ rw known IfOk-fault
    ]
