-- ===== src/Queue/Valid.antt =====
-- The representation invariant of the ring: `queue_in` and `queue_out` keep it, and under it no
-- access is outside the slots.
use lidas.Base.{
  ℕ, ◌+◌, ◌<◌, ◌≡◌, ◌≢◌, ok, length, length-set, get_or, get_elem?-eq-get_or, arith, set, success,
  failure,
}
use lidas.Queue.{Queue, queue_in, queue_out, advance}

pub record IsValid (q : Queue) : Type 0 where
  pub room : length q.slots ≡ q.max
  pub head_in : q.head < q.max
  pub tail_in : q.tail < q.max

pub advance-lt : (max i : ℕ) → i < max → advance max i < max
advance-lt max i h = ground arith

pub queue_in-full : (q : Queue) (d : ℕ) → q.head + 1 ≡ q.tail → queue_in q d ≡ ok (failure, q)
unfolding queue_in
queue_in-full q d h = ground arith

-- The value that a valid ring's `queue_in` returns when the test for a full ring fails.
abbrev pub stored_at : Queue → ℕ → Queue
stored_at q d = record q { slots = set q.slots q.head d; head = advance q.max q.head }

module _ (q : Queue) (v : IsValid q) where
  pub queue_in-ok : (d : ℕ) → q.head + 1 ≢ q.tail → queue_in q d ≡ ok (success, stored_at q d)
  unfolding queue_in
  queue_in-ok d h = ground (arith, v.room, v.head_in)

  pub queue_out-ok :
      q.tail ≢ q.head
      → queue_out q ≡ ok (get_or q.slots q.tail 0, record q { tail = advance q.max q.tail })
  unfolding queue_out
  queue_out-ok h = ground (arith, v.room, v.tail_in, get_elem?-eq-get_or q.slots q.tail 0)

  pub stored_at-IsValid : (d : ℕ) → IsValid (stored_at q d)
  stored_at-IsValid d = record {
    room = omega (arith, v.room, length-set q.slots q.head d);
    head_in = advance-lt q.max q.head v.head_in;
    tail_in = v.tail_in;
  }

pub queue_out-empty : (q : Queue) → q.tail ≡ q.head → queue_out q ≡ ok (0, q)
unfolding queue_out
queue_out-empty q h = ground arith

-- The ring that `queue_out` leaves behind a pointer that it took.
abbrev pub taken_from : Queue → Queue
taken_from q = record q { tail = advance q.max q.tail }

pub taken_from-IsValid : (q : Queue) → IsValid q → IsValid (taken_from q)
taken_from-IsValid q v = record {
  room = v.room;
  head_in = v.head_in;
  tail_in = advance-lt q.max q.tail v.tail_in;
}
