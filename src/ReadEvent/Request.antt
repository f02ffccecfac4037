-- ===== src/ReadEvent/Request.antt =====
-- `read_event`, `host_search` and `file_search` of src/read_event.c: from the bytes of a socket to the
-- file that a request names
mod Tests
use lidas.Base.{
  ◌>>=◌, ◌>>◌, ℕ, ◌+◌, ◌-◌, ◌%◌, Bool, false, ◌&&◌, ◌||◌, Option, none, some, List, [], ◌∷◌, ◌++◌,
  leb, ◌==◌, if◌then◌else◌, length, take, drop, Run, ok, fault, out_of_fuel, or_fault, Status,
  success, failure, not,
}
use lidas.Text.Compare.{str_eq}
use lidas.Text.Tokens.{strtok}
use lidas.Text.Literals.{codes}
use lidas.Http.Crc.{crc32_port}
use lidas.Http.Hash.{Table, Stale, hash_search}
use lidas.Http.Parser.{Request, http_parser, c_string}
use lidas.Memory.Pool.{Page, pool_siz, mem_pool_alloc}
use lidas.ReadEvent.{word, ReadResult, took, failed, get_content_len, write_to_stream}

-- `struct config_info`, less its patterns
pub record ConfigInfo : Type 0 where
  pub hostname : List ℕ
  pub frontpage : List ℕ

-- `PAGE_SIZ * 2`
abbrev pub head_siz : ℕ
head_siz = 8192

-- what `read` does to the buffer at an offset; outside the buffer is a fault
abbrev pub splice : (at : ℕ) (bytes buffer : List ℕ) → Run (List ℕ)
splice at bytes buffer =
    if leb (at + length bytes) (length buffer)
    then ok (take at buffer ++ (bytes ++ drop (at + length bytes) buffer))
    else fault

-- The loop of `read_event` that reads the head, at the offset `at` of the buffer, with what `read`
-- returns: the last `buf_siz`, the buffer, the `rest`, and what `read` returns later. The -1 of a call
-- that failed is 2 ^ 64 - 1 as a `size_t`, so the pointer moves back by a byte.
unfoldable pub read_head :
    List ReadResult → (at rest : ℕ) (buffer : List ℕ) → Run (ℕ × List ℕ × ℕ × List ReadResult)
read_head [] at rest buffer = out_of_fuel
read_head (took [] ∷ rs) at rest buffer = ok (0, buffer, rest, rs)
read_head (failed ∷ rs) at rest buffer =
    read_head rs ((at + (word - 1)) % word) ((rest + 1) % word) buffer
read_head (took (b ∷ bs) ∷ rs) at rest buffer =
    let n = length (b ∷ bs) in
    let rest' = (rest + (word - n)) % word in
    splice at (b ∷ bs) buffer >>= (λ buffer'.
      let later = read_head rs ((at + n) % word) rest' buffer' in
      if rest' == 0 then ok (n, buffer', rest', rs) else later)

-- `strlen` of the buffer; without a NUL it reads on behind it
abbrev pub string_in : List ℕ → Run (List ℕ)
string_in buffer = if length (c_string buffer) == length buffer then fault else ok (c_string buffer)

-- do the bytes from `at` on lie in a page of the pool?
abbrev pub in_pages : (at n : ℕ) → List Page → Bool
in_pages at n [] = false
in_pages at n (p ∷ ps) = (leb p.at at && leb (at + n) p.end_) || in_pages at n ps

-- The head in its place for good: in the buffer, or copied to the pool, where `behind` stands behind
-- the copy. `mem_pool_alloc` is asked for `buf_siz` bytes, whatever the length of the copy. The
-- protective copy to `addr`, which nobody reads, is left out.
abbrev pub place_head :
    (buf_siz : ℕ) (buffer behind : List ℕ) → List Page → Run (List ℕ × List Page)
place_head buf_siz buffer behind pool = string_in buffer >>= (λ text.
    let copy : Run (List ℕ × List Page) = do
      (new, pool') ← mem_pool_alloc 0 buf_siz pool
      if in_pages new (length text) pool' then ok (text ++ behind, pool') else fault
    in if leb (length text) pool_siz then copy else ok (text, pool))

-- what a request leaves in `struct event_data`: the parsed request, and `f_tmp`
pub record Received : Type 0 where
  pub request : Request
  pub f_tmp : Option (List ℕ)

-- `read_event` from the parsed request on, with what `read` and `thread_event_wait` return
unfoldable pub read_body :
    (fd : ℕ) (opened : Bool)
    → List Status
    → List ReadResult
    → List Page
    → Option Request
    → Run (Option Received × List (List ℕ) × List Page)
read_body fd opened waits later pool none = ok (none, [], pool)
read_body fd opened waits later pool (some p) = do
  size ← get_content_len p.list p.offset
  let body : Run (Option (List ℕ) × List (List ℕ)) =
      if size == 0 then ok (none, []) else write_to_stream fd opened waits later size
  (f_tmp, errors) ← body
  ok (some (record { request = p; f_tmp = f_tmp }), errors, pool)

-- `read_event`. `buffer` is what `malloc` left in the new one, `left` and `list` what the pool held
-- where the request and its table go, and `waits` what `thread_event_wait` returns. With the request,
-- or NULL, come the error pages that the client has been sent.
unfoldable pub read_event :
    List ReadResult
    → (fd : ℕ) (buffer behind : List ℕ) (left : Stale (List ℕ)) (list : Table (List ℕ))
      (opened : Bool)
    → List Status
    → List Page
    → Run (Option Received × List (List ℕ) × List Page)
unfolding read_head read_body
read_event reads fd buffer behind left list opened waits pool = do
  (buf_siz, filled, rest, later) ← read_head reads 0 head_siz buffer
  (head, pool') ← place_head buf_siz filled behind pool
  parsed ← http_parser left list head
  read_body fd opened waits later pool' parsed

-- `host_search`, with `host_lst` and `host_hash_n`
unfoldable pub host_search :
    Table (List ℕ) → (host_lst : Table ConfigInfo) (host_hash_n : ℕ) → Run (Option ConfigInfo)
host_search l host_lst host_hash_n = do
  name ← hash_search crc32_port (codes "host") l 29
  key ← or_fault name
  hash_search crc32_port key host_lst host_hash_n

-- The saved pointer of `strtok_r` after a call: the GNU C library points it to the rest of the text, at its
-- end to the NUL, and never to NULL.
abbrev pub saved_pointer : List ℕ → Option (List ℕ)
saved_pointer rest = some rest

-- what the rest of `file_search` finds in memory and in the file system: what the unset pointer
-- `path` shows, if anything, and whether `stat` finds the path
pub record Disk : Type 0 where
  pub path : Option (List ℕ)
  pub stat : List ℕ → Status

-- `file_search`: the path, or NULL
unfoldable pub file_search :
    (method : List ℕ)
    → ConfigInfo
    → (url : Option (List ℕ)) → Disk
    → List Page
    → Run (Option (List ℕ) × List Page)
file_search method q url disk pool =
    let search : Run (Option (List ℕ) × List Page) = do
      u ← or_fault url
      let (first, rest) = strtok (codes "?") u
      elim (saved_pointer rest) [
        | some t ↦ ok (none, pool)
        | none ↦ or_fault disk.path >>= (λ shown.
            let file = if str_eq shown (codes "/") then some q.frontpage else first in
            or_fault file >>= (λ name.
              mem_pool_alloc 0 (length q.hostname + length name + 2) pool >>= (λ (at, pool').
                let path = q.hostname ++ name in
                elim (disk.stat path) [
                  | success ↦ ok (some path, pool')
                  | failure ↦ ok (none, pool')
                ])))
      ]
    in if not (str_eq method (codes "GET")) && not (str_eq method (codes "HEAD"))
      then ok (none, pool)
      else search
