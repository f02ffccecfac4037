-- ===== src/ReadEvent/Head.antt =====
-- What the loops that read a head (`read_event` of src/read_event.c) leave in the buffer and where it
-- is kept
use lidas.Base.{
  ℕ, zero, suc, ◌+◌, ◌-◌, ◌%◌, ◌≤◌, ◌<◌, ◌≡◌, refl, sym, ap, ◌∙◌, true, false, List, [], ◌∷◌, ◌++◌,
  arith, leb, ltb, ◌==◌, ne→==, length, drop, ok, length-append, append_assoc, take-append, Run,
}
use lidas.Http.Parser.{c_string}
use lidas.Memory.Pool.{Page, pool_siz, alloc_in, mem_pool_alloc}
use lidas.ReadEvent.{word, ReadResult}
use lidas.ReadEvent.Body.{Chunk, chunk_bytes, reads_of}
use lidas.ReadEvent.Request.{read_head, splice, place_head}

module _ {A : Type 0} where
  drop-behind : (xs ys : List A) (n : ℕ) → drop (length xs + n) (xs ++ ys) ≡ drop n ys
  drop-behind [] ys n = let e : 0 + n ≡ n = omega arith in rw e refl
  drop-behind (x ∷ xs) ys n =
      let e : suc (length xs) + n ≡ suc (length xs + n) = omega arith in rw e (drop-behind xs ys n)

  drop-nil : (n : ℕ) → drop {A = A} n [] ≡ []
  drop-nil zero = refl
  drop-nil (suc n) = refl

  drop_twice : (m n : ℕ) (xs : List A) → drop m (drop n xs) ≡ drop (n + m) xs
  drop_twice m zero xs = let e : 0 + m ≡ m = omega arith in rw e refl
  drop_twice m (suc n) [] = drop-nil m ∙ sym (drop-nil (suc n + m))
  drop_twice m (suc n) (x ∷ xs) =
      let e : suc n + m ≡ suc (n + m) = omega arith in rw e (drop_twice m n xs)

  length-drop : (n : ℕ) (xs : List A) → length (drop n xs) ≡ length xs - n
  length-drop zero xs = omega arith
  length-drop (suc n) [] = omega arith
  length-drop (suc n) (x ∷ xs) = length-drop n xs ∙ omega arith

splice-lem :
    (before bytes old : List ℕ)
    → length bytes ≤ length old
    → splice (length before) bytes (before ++ old)
      ≡ ok ((before ++ bytes) ++ drop (length bytes) old)
splice-lem before bytes old h =
    let fits : leb (length before + length bytes) (length (before ++ old)) ≡ true =
      ground (arith, length-append before old, h) in
    rw (fits, take-append before old, drop-behind before old (length bytes))
      (ap ok (sym (append_assoc before bytes (drop (length bytes) old))))

-- the result for a piece and the pieces after it, put together
whole :
    (before here c old : List ℕ) (later : List ReadResult)
    → ◌≡◌ {A = Run (ℕ × List ℕ × ℕ × List ReadResult)}
        (ok (
          0,
          (before ++ here) ++ (c ++ drop (length c) (drop (length here) old)),
          length (drop (length here) old) - length c,
          later,
        ))
        (ok (
          0,
          before ++ ((here ++ c) ++ drop (length (here ++ c)) old),
          length old - length (here ++ c),
          later,
        ))
whole before here c old later =
    let n : ℕ = length here in
    let sum : length (here ++ c) ≡ n + length c = length-append here c in
    let dropped : drop (length c) (drop n old) ≡ drop (length (here ++ c)) old =
      drop_twice (length c) n old ∙ ap (λ k. drop k old) (sym sum) in
    let left : length (drop n old) - length c ≡ length old - length (here ++ c) =
      omega (arith, sum, length-drop n old) in
    rw
      (
        left,
        append_assoc before here (c ++ drop (length c) (drop n old)),
        dropped,
        append_assoc here c (drop (length (here ++ c)) old),
      )
      refl

-- If the head arrives in pieces, together fewer bytes than the buffer has left, and the client then
-- sends no more, the loop leaves the pieces in the buffer in their order, from the place on where it
-- began, and nothing else changes. The last `buf_siz` is 0.
pub read_head-reads_of :
    (cs : List Chunk) (later : List ReadResult) (before old : List ℕ)
    → length (chunk_bytes cs) < length old
    → length before + length old < word
    → read_head (reads_of cs later) (length before) (length old) (before ++ old)
      ≡ ok (
        0,
        before ++ (chunk_bytes cs ++ drop (length (chunk_bytes cs)) old),
        length old - length (chunk_bytes cs),
        later,
      )
unfolding read_head
read_head-reads_of [] later before old h w =
    let e : length old - 0 ≡ length old = omega arith in rw e refl
read_head-reads_of ((b, bs) ∷ cs) later before old h w =
    let here = b ∷ bs in
    let c = chunk_bytes cs in
    let n : ℕ = length here in
    let sum : length (here ++ c) ≡ n + length c = length-append here c in
    let rest = length-drop n old in
    let place : (length before + n) % word ≡ length (before ++ here) =
      omega (arith, h, w, sum, length-append before here) in
    let left : (length old + (word - n)) % word ≡ length (drop n old) =
      omega (arith, h, w, sum, rest) in
    let more : (length (drop n old) == 0) ≡ false = ne→== _ _ (omega (arith, h, sum, rest)) in
    let later_on =
      read_head-reads_of cs later (before ++ here) (drop n old) (omega (arith, h, sum, rest))
        (omega (arith, h, w, sum, rest, length-append before here)) in
    rw (splice-lem before here old (omega (arith, h, sum)), place, left, more)
      (later_on ∙ whole before here c old later)

-- `read_event` asks the pool for as many bytes as the last call of `read` took, which are none if the
-- client has stopped sending. The head is then copied to where the pool's free space begins, and the
-- pool is left as it was: the next allocation of a size that fits gets the bytes where the head lies.
pub place_head-unreserved :
    (buffer behind : List ℕ) (p : Page) (ps : List Page) (size : ℕ)
    → length (c_string buffer) < length buffer
    → length (c_string buffer) ≤ pool_siz
    → p.at ≤ p.start
    → p.start + length (c_string buffer) ≤ p.end_
    → size ≤ p.end_ - p.start
    → size ≤ pool_siz
    → (mem_pool_alloc 0 0 (p ∷ ps) ≡ ok (p.start, p ∷ ps))
      × (place_head 0 buffer behind (p ∷ ps) ≡ ok (c_string buffer ++ behind, p ∷ ps))
      × (mem_pool_alloc 0 size (p ∷ ps) ≡ ok (p.start, record p { start = p.start + size } ∷ ps))
unfolding mem_pool_alloc alloc_in
place_head-unreserved buffer behind p ps size ends fits low page room small =
    let text = c_string buffer in
    let nothing : leb 0 (p.end_ - p.start) ≡ true = ground arith in
    let same : p.start + 0 ≡ p.start = omega arith in
    let alloc : mem_pool_alloc 0 0 (p ∷ ps) ≡ ok (p.start, p ∷ ps) = rw (nothing, same) refl in
    let terminated : (length text == length buffer) ≡ false = ne→== _ _ (omega (arith, ends)) in
    let short : leb (length text) pool_siz ≡ true = ground (arith, fits) in
    let from : leb p.at p.start ≡ true = ground (arith, low) in
    let to : leb (p.start + length text) p.end_ ≡ true = ground (arith, page) in
    let usual : ltb pool_siz size ≡ false = ground (arith, small) in
    let enough : leb size (p.end_ - p.start) ≡ true = ground (arith, room) in
    (alloc, rw (terminated, short, alloc, from, to) refl, rw (usual, enough) refl)
