-- ===== src/Snd/Loop.antt =====
-- What `post_loop` of src/snd.c hands to `write`
use lidas.Base.{
  ℕ, ◌+◌, ◌-◌, ◌%◌, ◌≤◌, ◌<◌, ◌≡◌, refl, ◌≢◌, Bool, true, false, List, [], ◌∷◌, arith, ltb, ◌==◌,
  if◌then◌else◌, Run, ok, fault, exited, out_of_fuel, ◌>>=◌, Status, success,
}
use lidas.Snd.{Written, wrote, failed, word, as_size, post_loop}

abbrev pub taken : List ℕ → List Written
taken [] = []
taken (n ∷ ns) = wrote n ∷ taken ns

abbrev pub total : List ℕ → ℕ
total [] = 0
total (n ∷ ns) = n + total ns

abbrev pub ArePositive : List ℕ → Type 0
ArePositive [] = Unit
ArePositive (n ∷ ns) = (0 < n) × ArePositive ns

-- the calls that send the bytes from `p` on in pieces of these lengths
abbrev pub calls_from : (p rest : ℕ) → List ℕ → List (ℕ × ℕ)
calls_from p rest [] = []
calls_from p rest (n ∷ ns) = (p, rest) ∷ calls_from (p + n) (rest - n) ns

-- one successful call of `write`
wrote-round :
    (wait : Status) (n p rest : ℕ) (ws : List Written)
    → 0 < n
    → n ≤ rest
    → p + rest < word
    → post_loop wait (wrote n ∷ ws) p rest ≡ (
        if rest - n == 0
        then ok (success, (p, rest) ∷ [])
        else (post_loop wait ws (p + n) (rest - n) >>= (λ (r, calls). ok (r, (p, rest) ∷ calls))))
unfolding as_size post_loop
wrote-round wait n p rest ws a b h =
    let cur : n % word ≡ n = omega (arith, b, h) in
    let further : (p + n) % word ≡ p + n = omega (arith, b, h) in
    let left : (rest + (word - n)) % word ≡ rest - n = omega (arith, b, h) in
    let some_taken : (n == 0) ≡ false = ground (arith, a) in
    let unsigned : ltb n 0 ≡ false = ground arith in
    rw (cur, further, left, some_taken, unsigned) refl

-- If every call of `write` takes at least a byte and together they take the whole data, `post_loop`
-- succeeds, and each call continues where the one before it stopped and offers all that is left.
pub post_loop-sends :
    (wait : Status) (p n : ℕ) (ns : List ℕ)
    → ArePositive (n ∷ ns)
    → p + total (n ∷ ns) < word
    → post_loop wait (taken (n ∷ ns)) p (total (n ∷ ns))
      ≡ ok (success, calls_from p (total (n ∷ ns)) (n ∷ ns))
unfolding as_size post_loop
post_loop-sends wait p n [] a h =
    let done : (n + 0 - n == 0) ≡ true = ground arith in
    rw (wrote-round wait n p (n + 0) [] a.0 (omega arith) h, done) refl
post_loop-sends wait p n (m ∷ ns) a h =
    let sum = m + total ns in
    let left : n + sum - n ≡ sum = omega arith in
    let more : (sum == 0) ≡ false = ground (arith, a.1.0) in
    let later = post_loop-sends wait (p + n) m ns a.1 (omega (arith, h)) in
    rw (wrote-round wait n p (n + sum) (taken (m ∷ ns)) a.0 (omega arith) h, left, more, later) refl

-- A failed call of `write` is not seen: the next call starts one byte before the one that failed and
-- offers one byte more, so that the data is sent from the byte before its start on.
pub post_loop-error :
    (wait : Status) (ws : List Written) (p rest : ℕ)
    → 0 < p
    → p < word
    → rest + 1 < word
    → post_loop wait (failed ∷ ws) p rest
      ≡ (post_loop wait ws (p - 1) (rest + 1) >>= (λ (r, calls). ok (r, (p, rest) ∷ calls)))
unfolding as_size post_loop
post_loop-error wait ws p rest a b c =
    let cur : word - 1 ≢ 0 = omega arith in
    let back : (p + (word - 1)) % word ≡ p - 1 = omega (arith, a, b) in
    let longer : (rest + (word - (word - 1))) % word ≡ rest + 1 = omega (arith, c) in
    let more : (rest + 1 == 0) ≡ false = ground arith in rw (back, longer, more) refl

-- The call does not return -1.
abbrev pub NotFailed : Run (Status × List (ℕ × ℕ)) → Type 0
NotFailed (ok r) = r.0 ≡ success
NotFailed fault = Unit
NotFailed exited = Unit
NotFailed out_of_fuel = Unit

NotFailed-if :
    (b : Bool) (x y : Run (Status × List (ℕ × ℕ)))
    → NotFailed x
    → NotFailed y
    → NotFailed (if b then x else y)
NotFailed-if true x y p q = p
NotFailed-if false x y p q = q

NotFailed-record :
    (m : Run (Status × List (ℕ × ℕ))) (call : ℕ × ℕ)
    → NotFailed m
    → NotFailed (m >>= (λ (r, calls). ok (r, call ∷ calls)))
NotFailed-record (ok r) call h = h
NotFailed-record fault call h = tt
NotFailed-record exited call h = tt
NotFailed-record out_of_fuel call h = tt

-- Whatever the calls of `write` return, errors included, `post_loop` does not return -1.
pub post_loop-NotFailed :
    (wait : Status) (ws : List Written) (p rest : ℕ) → NotFailed (post_loop wait ws p rest)
unfolding post_loop
post_loop-NotFailed wait [] p rest = tt
post_loop-NotFailed wait (w ∷ ws) p rest =
    let unsigned : ltb (as_size w) 0 ≡ false = ground arith in
    let cur = as_size w in
    let p' = (p + cur) % word in
    let rest' = (rest + (word - cur)) % word in
    let last : Run (Status × List (ℕ × ℕ)) = ok (success, (p, rest) ∷ []) in
    let later : Run (Status × List (ℕ × ℕ)) =
      post_loop wait ws p' rest' >>= (λ (r, calls). ok (r, (p, rest) ∷ calls)) in
    rw unsigned (
      NotFailed-if (cur == 0) last (if rest' == 0 then last else later) refl (
        NotFailed-if (rest' == 0) last later refl (
          NotFailed-record (post_loop wait ws p' rest') (p, rest)
            (post_loop-NotFailed wait ws p' rest'))))
