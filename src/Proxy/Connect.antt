-- ===== src/Proxy/Connect.antt =====
-- The sockets that src/proxy.c opens to a backend
use lidas.Base.{
  ℕ, zero, suc, ◌+◌, ◌-◌, ◌≤◌, ◌<◌, ◌≡◌, refl, sym, ap, ◌∙◌, ◌≢◌, Bool, true, false, ◌&&◌, none,
  some, List, [], ◌∷◌, ◌++◌, arith, ◌==◌, ne→==, length, take, replicate, length-replicate, ok,
  fault, Status, success, failure, Returns, returns, Returns-bind,
}
use lidas.Queue.{Queue, queue_init}
use lidas.Queue.Valid.{IsValid, queue_in-ok, stored_at, stored_at-IsValid}
use lidas.Text.Compare.{str_eq}
use lidas.Proxy.{
  Node, Socket, socket, fill_fds, proxy_heap_handler, connect_loop, re_connect, Answer, no_pipe,
  said, match_proxy,
}

-- `n` calls of `connect` that fail, and one that succeeds
abbrev after_failures : ℕ → List Status
after_failures zero = success ∷ []
after_failures (suc n) = failure ∷ after_failures n

connect_loop-after :
    (n cnt : ℕ) → n ≤ cnt → connect_loop (after_failures n) cnt ≡ ok (some (cnt - n))
unfolding connect_loop
connect_loop-after zero cnt h = ap (λ k. ok (some k)) (omega arith)
connect_loop-after (suc n) zero h = absurd (omega (arith, h))
connect_loop-after (suc n) (suc cnt) h =
    connect_loop-after n cnt (omega (arith, h)) ∙ ap (λ k. ok (some k)) (omega arith)

-- `re_connect` returns the socket if one of the first five calls of `connect` succeeds. It returns
-- -1 if the sixth succeeds, which is then connected, and the socket if all six fail.
pub re_connect_lem :
    (n pfd : ℕ)
    → (n < 5 → re_connect true (after_failures n) pfd ≡ ok (some pfd))
      × (n ≡ 5 → re_connect true (after_failures n) pfd ≡ ok none)
      × ((rest : List Status) → re_connect true (replicate 6 failure ++ rest) pfd ≡ ok (some pfd))
unfolding connect_loop re_connect
re_connect_lem n pfd = (
  (λ h.
      let more : (5 - n == 0) ≡ false = ground (arith, h) in
      rw (connect_loop-after n 5 (omega (arith, h)), more) refl),
  (λ h.
      let none_left : (5 - n == 0) ≡ true = ground (arith, h) in
      rw (connect_loop-after n 5 (omega (arith, h)), none_left) refl),
  (λ rest. refl),
)

abbrev pub sockets : List ℕ → List Socket
sockets [] = []
sockets (fd ∷ fds) = socket fd ∷ sockets fds

abbrev AreReal : List ℕ → Type 0
AreReal [] = Unit
AreReal (fd ∷ fds) = (fd ≢ 0) × AreReal fds

-- The loop of `proxy_heap_handler` fills the ring up to its end, where `head` comes back to 0.
fill_fds-wraps :
    (fd : ℕ) (fds : List ℕ) (q : Queue) (next : Socket)
    → IsValid q
    → AreReal (fd ∷ fds)
    → q.tail ≡ 0
    → q.head + length (fd ∷ fds) ≡ q.max
    → Returns
        (λ r. (r.head ≡ 0) × (r.tail ≡ 0))
        (fill_fds (sockets (fd ∷ fds) ++ (next ∷ [])) (length (fd ∷ fds)) q)
unfolding fill_fds
fill_fds-wraps fd [] q next v a t h =
    let not_full : q.head + 1 ≢ q.tail = omega (arith, t) in
    let wraps : (q.head + 1 == q.max) ≡ true = ground (arith, h) in
    rw (ne→== _ _ a.0, queue_in-ok q v fd not_full, wraps) (returns (refl, t))
fill_fds-wraps fd (g ∷ fds) q next v a t h =
    let not_full : q.head + 1 ≢ q.tail = omega (arith, t) in
    let goes_on : (q.head + 1 == q.max) ≡ false = ground (arith, h) in
    let r = stored_at q fd in
    let on : r.head ≡ q.head + 1 = rw goes_on refl in
    let later =
      fill_fds-wraps g fds r next (stored_at-IsValid q v fd) a.1 t (omega (arith, h, on)) in
    rw (ne→== _ _ a.0, queue_in-ok q v fd not_full) later

-- If as many sockets as the node's weight are connected, `proxy_heap_handler` stores them all in the
-- ring of that many slots, and leaves it with `head` on `tail`, which is how an empty ring looks. So
-- none of them can be taken out again.
pub proxy_heap_handler-loses :
    (fd : ℕ) (fds : List ℕ) (p : Node) (next : Socket)
    → AreReal (fd ∷ fds)
    → p.weight ≡ length (fd ∷ fds)
    → Returns
        (λ p'. p'.fds.head ≡ p'.fds.tail)
        (proxy_heap_handler (sockets (fd ∷ fds) ++ (next ∷ [])) p)
unfolding queue_init proxy_heap_handler
proxy_heap_handler-loses fd fds p next a w =
    let empty = queue_init p.weight 0 [] in
    let v : IsValid empty = record {
      room = length-replicate p.weight 0;
      head_in = omega (arith, w);
      tail_in = omega (arith, w);
    } in
    rw w (
      Returns-bind
        (fill_fds-wraps fd fds (queue_init (suc (length fds)) 0 []) next (rw w at v) a refl
          (omega arith))
        (λ q e. returns (e.0 ∙ sym e.1)))

and_false : (b : Bool) → (b && false) ≡ false
and_false true = refl
and_false false = refl

str_eq-two : (a : List ℕ) (x y z : ℕ) → str_eq (take 2 a) (x ∷ y ∷ z ∷ []) ≡ false
unfolding str_eq
str_eq-two [] x y z = refl
str_eq-two (a ∷ []) x y z = and_false (a == x)
str_eq-two (a ∷ b ∷ rest) x y z = rw (and_false (b == y), and_false (a == x)) refl

-- `match_proxy` returns no group, whatever the script answers: it compares two bytes of each answer
-- with "yes", and runs on behind the last pattern.
pub match_proxy-faults : (answers : List (Answer × ℕ)) → match_proxy answers ≡ fault
unfolding match_proxy
match_proxy-faults [] = refl
match_proxy-faults ((no_pipe, group) ∷ rest) = match_proxy-faults rest
match_proxy-faults ((said line, group) ∷ rest) =
    rw (str_eq-two line _ _ _) (match_proxy-faults rest)
