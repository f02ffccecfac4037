-- ===== src/ReadEvent.antt =====
-- src/read_event.c: `get_content_len` and `write_to_stream`, which read the body of a request into
-- a file. `read`, `fopen` and `fwrite` are calls of the system: what each call of `read` returns is
-- read off a list, and the file is the list of the bytes written to it.
pub mod Request
pub mod Head
pub mod Host
pub mod Length
pub mod Body
pub mod Silent
mod Tests
use lidas.Base.{
  ℕ, zero, suc, ◌+◌, ◌-◌, ◌%◌, ◌^◌, Bool, Option, none, some, List, [], ◌∷◌, ◌++◌, leb,
  if◌then◌else◌, length, Run, ok, fault, out_of_fuel, ◌>>=◌, ◌>>◌, Status, success, failure,
}
use lidas.Text.Literals.{codes}
use lidas.Text.Numerals.{atoi}
use lidas.Http.Crc.{crc32_port}
use lidas.Text.Numerals.Decimal.{decimal}
use lidas.Http.Hash.{Table, hash_search}
use lidas.Snd.File.{error_post}

-- the numbers below which a `size_t` stays
abbrev pub word : ℕ
word = 2 ^ 64

-- an `int` as a `size_t`: a negative one, given as its pattern of 32 bits, extends its sign
abbrev pub widen : ℕ → ℕ
widen v = if leb (2 ^ 31) v then v + (word - 2 ^ 32) else v

abbrev pub length_of : Option (List ℕ) → ℕ → ℕ
length_of none offset = 0
length_of (some r) offset = (widen (atoi r) + (word - offset)) % word

-- `get_content_len`
pub get_content_len : Table (List ℕ) → (offset : ℕ) → Run ℕ
get_content_len t offset =
    hash_search crc32_port (codes "Content-Length") t 29 >>= (λ r. ok (length_of r offset))

-- what `read` returns: the bytes that it took, or -1
pub data ReadResult : Type 0 where
  took : List ℕ → ReadResult
  failed : ReadResult

-- The inner loop of `write_to_stream`: the new `sum`, the file, and what `read` returns later. The
-- -1 of a call that failed is 2 ^ 64 - 1 as a `size_t`, so `fwrite` reads past the end of `buf`.
-- Without a file, `fwrite` gets NULL.
pub drain :
    (opened : Bool)
    → List ReadResult
    → (sum : ℕ) (file : List ℕ) → Run (ℕ × List ℕ × List ReadResult)
drain opened [] sum file = out_of_fuel
drain opened (failed ∷ rs) sum file = fault
drain opened (took [] ∷ rs) sum file = ok (sum, file, rs)
drain opened (took (b ∷ bs) ∷ rs) sum file =
    let rest = drain opened rs ((sum + length (b ∷ bs)) % word) (file ++ (b ∷ bs)) in
    if opened then rest else fault

-- The outer loop, with what `thread_event_wait` returns; `re_cnt` is what is left of it.
pub collect :
    (re_cnt : ℕ)
    → (opened : Bool) → List Status
    → List ReadResult
    → (size sum : ℕ) (file : List ℕ) → Run (Option (List ℕ))
unfolding drain
collect zero opened waits reads size sum file = ok none
collect (suc n) opened waits reads size sum file =
    drain opened reads sum file >>= (λ (sum', file', reads').
      if leb size sum' then (if opened then ok (some file') else fault) else elim waits [
        | [] ↦ out_of_fuel
        | w ∷ ws ↦ elim w [
          | success ↦ collect n opened ws reads' size sum' file'
          | failure ↦ ok none
        ]
      ])

-- what `sprintf` writes to `fname`
pub file_name : (fd : ℕ) → List ℕ
file_name fd = codes "/var/lida/tmp/Buffer_" ++ (decimal fd ++ codes ".tmp")

-- the room of `fname`
abbrev pub fname_room : ℕ
fname_room = 15

-- what the client gets of `write_to_stream`: at FAILED the error page 503
abbrev pub failed_page : Option (List ℕ) → List (List ℕ)
failed_page none = error_post 503 ∷ []
failed_page (some file) = []

-- `write_to_stream`: the rewound file, or NULL, and the error pages for the client. A name that does
-- not fit into `fname`, its NUL included, is written behind it.
pub write_to_stream :
    (fd : ℕ) (opened : Bool)
    → List Status
    → List ReadResult
    → (size : ℕ) → Run (Option (List ℕ) × List (List ℕ))
unfolding file_name collect
write_to_stream fd opened waits reads size =
    let run = collect 10 opened waits reads size 0 [] in
    if leb fname_room (length (file_name fd))
    then fault
    else (run >>= (λ found. ok (found, failed_page found)))
