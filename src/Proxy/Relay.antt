-- ===== src/Proxy/Relay.antt =====
-- The loops of `proxy_mute_post` (src/proxy.c) that send to the client
use lidas.Base.{
  ℕ, ◌+◌, ◌-◌, ◌%◌, ◌≤◌, ◌<◌, ◌≡◌, refl, ◌≢◌, true, false, List, [], ◌∷◌, arith, ◌==◌,
  if◌then◌else◌, ne→==, ok, out_of_fuel, ◌>>=◌,
}
use lidas.Snd.{Written, wrote, word, as_size}
use lidas.Snd.Loop.{taken, total, ArePositive, calls_from}
use lidas.Proxy.{send_loop}

wrote-round :
    (n p rest : ℕ) (ws : List Written)
    → 0 < n
    → n ≤ rest
    → p + rest < word
    → send_loop true (wrote n ∷ ws) p rest ≡ (
        if rest - n == 0
        then ok ((p, rest) ∷ [])
        else (send_loop true ws (p + n) (rest - n) >>= (λ calls. ok ((p, rest) ∷ calls))))
unfolding as_size send_loop
wrote-round n p rest ws a b h =
    let cur : n % word ≡ n = omega (arith, b, h) in
    let further : (p + n) % word ≡ p + n = omega (arith, b, h) in
    let left : (rest + (word - n)) % word ≡ rest - n = omega (arith, b, h) in
    let some_taken : (n == 0) ≡ false = ground (arith, a) in
    rw (cur, further, left, some_taken) refl

-- If every call of `write` takes at least a byte and together they take the whole data, the first
-- loop of `proxy_mute_post` ends with the data sent, each call continuing where the last stopped.
pub send_loop-sends :
    (p n : ℕ) (ns : List ℕ)
    → ArePositive (n ∷ ns)
    → p + total (n ∷ ns) < word
    → send_loop true (taken (n ∷ ns)) p (total (n ∷ ns))
      ≡ ok (calls_from p (total (n ∷ ns)) (n ∷ ns))
send_loop-sends p n [] a h =
    let done : (n + 0 - n == 0) ≡ true = ground arith in
    rw (wrote-round n p (n + 0) [] a.0 (omega arith) h, done) refl
send_loop-sends p n (m ∷ ns) a h =
    let sum = m + total ns in
    let left : n + sum - n ≡ sum = omega arith in
    let more : (sum == 0) ≡ false = ground (arith, a.1.0) in
    let later = send_loop-sends (p + n) m ns a.1 (omega (arith, h)) in
    rw (wrote-round n p (n + sum) (taken (m ∷ ns)) a.0 (omega arith) h, left, more, later) refl

abbrev pub AreTaken : List Written → Type 0
AreTaken [] = Unit
AreTaken (w ∷ ws) = (as_size w ≢ 0) × AreTaken ws

-- The loop that sends what came from the backend does not end as long as `write` takes anything,
-- since it moves neither its pointer nor its count: the client gets the same bytes again and again.
pub send_loop-repeats :
    (ws : List Written) (p rest : ℕ) → AreTaken ws → send_loop false ws p rest ≡ out_of_fuel
unfolding send_loop
send_loop-repeats [] p rest a = refl
send_loop-repeats (w ∷ ws) p rest a = rw (ne→== _ _ a.0, send_loop-repeats ws p rest a.1) refl
