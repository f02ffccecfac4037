-- ===== src/Queue.antt =====
-- src/queue.c and src/queue.h: the ring of pointers that the timer and the proxy nodes use. A
-- pointer is a number and NULL is 0. A function that updates `*h` returns the new ring. An access
-- outside `data` is a fault.
pub mod Spec
pub mod Valid
pub mod Refine
pub mod Overrun
mod Tests
use lidas.Base.{
  ℕ, suc, ◌+◌, ◌<◌, Bool, List, Run, ok, or_fault, ◌>>=◌, Status, success, failure, ltb, ◌==◌,
  if◌then◌else◌, length, get_elem?, set, replicate, fault,
}

-- `struct lida_queue_h`
pub record Queue : Type 0 where
  pub max : ℕ
  pub head : ℕ
  pub tail : ℕ
  pub slots : List ℕ

-- `queue_init`. With an `fd` the slots come from that connection's pool, which does not clear
-- them: they hold `garbage`. Without one they come from `calloc`.
unfoldable pub queue_init : (max fd : ℕ) (garbage : List ℕ) → Queue
queue_init max fd garbage = record {
  max = max;
  head = 0;
  tail = 0;
  slots = if fd == 0 then replicate max 0 else garbage;
}

-- `Q_IS_FULL`
abbrev is_full : Queue → Bool
is_full h = h.head + 1 == h.tail

-- The index after `i`. `max - 1` is an `int` here, so it is compared as `i + 1 == max`.
abbrev pub advance : ℕ → ℕ → ℕ
advance max i = if i + 1 == max then 0 else i + 1

-- `*(h->data + i) = d`
abbrev pub store : List ℕ → ℕ → ℕ → Run (List ℕ)
store slots i d = if ltb i (length slots) then ok (set slots i d) else fault

-- `queue_in`
unfoldable pub queue_in : Queue → ℕ → Run (Status × Queue)
queue_in h d = if is_full h then ok (failure, h) else do
  slots ← store h.slots h.head d
  ok (success, record h { slots = slots; head = advance h.max h.head })

-- `queue_out`: NULL where the two indices meet
pub queue_out : Queue → Run (ℕ × Queue)
queue_out h = if h.tail == h.head then ok (0, h) else do
  ret ← or_fault (get_elem? h.slots h.tail)
  ok (ret, record h { tail = advance h.max h.tail })
