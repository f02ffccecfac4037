-- ===== src/Response/Header.antt =====
-- What `reponse_head` of src/response.c hands to `write`
use lidas.Base.{
  false, ℕ, ◌+◌, ◌-◌, ◌%◌, ◌<◌, ◌≡◌, refl, List, [], ◌∷◌, ◌++◌, arith, lt→ltb, ◌==◌, length, ok,
  success,
}
use lidas.Snd.{Written, wrote, word, as_size}
use lidas.Snd.Loop.{total, ArePositive, calls_from}
use lidas.Response.{head_text, head_loop, buf_room, reponse_head}

-- calls of `write` that take these numbers of bytes, and then none
abbrev pub taken_all : List ℕ → List Written
taken_all [] = wrote 0 ∷ []
taken_all (n ∷ ns) = wrote n ∷ taken_all ns

head_loop-taken :
    (ns : List ℕ) (ptr : ℕ)
    → ArePositive ns
    → ptr + total ns < word
    → head_loop (taken_all ns) ptr (total ns)
      ≡ ok (success, calls_from ptr (total ns) ns ++ ((ptr + total ns, 0) ∷ []))
unfolding head_loop as_size
head_loop-taken [] ptr a h = let end : ptr + 0 ≡ ptr = omega arith in rw end refl
head_loop-taken (n ∷ ns) ptr a h =
    let cur : n % word ≡ n = omega (arith, h) in
    let further : (ptr + n) % word ≡ ptr + n = omega (arith, h) in
    let left : (n + total ns + (word - n)) % word ≡ total ns = omega (arith, h) in
    let remains : n + total ns - n ≡ total ns = omega arith in
    let some_taken : (n == 0) ≡ false = ground (arith, a.0) in
    let end : ptr + n + total ns ≡ ptr + (n + total ns) = omega arith in
    rw
      (
        cur,
        further,
        left,
        some_taken,
        remains,
        ← end,
        head_loop-taken ns (ptr + n) a.1 (omega (arith, h)),
      )
      refl

-- If `write` takes as many bytes as the header has, in pieces of any size, and the header fits its
-- buffer, `reponse_head` succeeds and has written that many bytes from the pointer that it never set,
-- wherever the header is.
pub reponse_head-unset :
    (len : ℕ) (mime date : List ℕ) (ns : List ℕ) (ptr : ℕ)
    → ArePositive ns
    → total ns ≡ length (head_text len mime date)
    → length (head_text len mime date) < buf_room
    → ptr + length (head_text len mime date) < word
    → reponse_head len mime date (taken_all ns) ptr
      ≡ ok (
        success,
        calls_from ptr (length (head_text len mime date)) ns
            ++ ((ptr + length (head_text len mime date), 0) ∷ []),
      )
unfolding reponse_head
reponse_head-unset len mime date ns ptr a sum fits h =
    rw (lt→ltb _ _ fits, ← sum) (head_loop-taken ns ptr a (rw sum h))
