-- ===== src/ReadEvent/Length.antt =====
-- `get_content_len` of src/read_event.c: how much of a body is still to come
use lidas.Base.{
  ℕ, ◌+◌, ◌-◌, ◌%◌, ◌^◌, ◌<◌, ◌≡◌, ap, inl, inr, false, some, List, leb, arith, if◌then◌else◌,
  Bool-cases, leb→le, ok,
}
use lidas.Text.Literals.{codes}
use lidas.Text.Numerals.Decimal.{decimal, atoi-decimal}
use lidas.Http.Crc.{crc32_port}
use lidas.Http.Hash.{Table, hash_search}
use lidas.ReadEvent.{word, widen, get_content_len}

remaining :
    (n offset : ℕ)
    → n < 2 ^ 31
    → offset < word
    → (widen n + (word - offset)) % word
      ≡ (if leb offset n then n - offset else word - (offset - n))
remaining n offset small h =
    let plain : leb (2 ^ 31) n ≡ false = ground (arith, small) in
    elim (Bool-cases (leb offset n)) [
      | inl more ↦ rw (plain, more) (omega (arith, leb→le _ _ more))
      | inr over ↦
          let less : n < offset = ground (arith, over) in rw (plain, over) (omega (arith, less, h))
    ]

-- If the header `Content-Length` of a request gives an `n` below 2 ^ 31 in decimal, and `offset` is
-- below 2 ^ 64, `get_content_len` is what is left of the `n` bytes after the `offset` ones that came
-- with the head. If more than `n` came with it, the difference wraps modulo 2 ^ 64.
pub get_content_len_lem :
    (t : Table (List ℕ)) (n offset : ℕ)
    → hash_search crc32_port (codes "Content-Length") t 29 ≡ ok (some (decimal n))
    → n < 2 ^ 31
    → offset < word
    → get_content_len t offset ≡ ok (if leb offset n then n - offset else word - (offset - n))
unfolding get_content_len
get_content_len_lem t n offset found small h =
    rw (found, atoi-decimal n small) (ap ok (remaining n offset small h))
