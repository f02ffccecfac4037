-- ===== src/Queue/Overrun.antt =====
-- The state that `Q_IS_FULL` does not see: `head` on the last slot and `tail` on the first.
use lidas.Base.{
  ℕ, ◌-◌, ◌<◌, ◌≡◌, refl, ap, List, [], arith, length, length-replicate, ok, success, Returns,
  returns,
}
use lidas.Queue.{Queue, queue_init, queue_in, queue_out}
use lidas.Queue.Valid.{IsValid, stored_at, queue_in-ok, queue_out-empty}
use lidas.Queue.Refine.{contents, count, length-contents, IsEdge, window}

stored_at-meets : (q : Queue) (d : ℕ) → IsEdge q → (stored_at q d).tail ≡ (stored_at q d).head
stored_at-meets q d e = ground (arith, e.0, e.1)

contents-nil : (q : Queue) → q.tail ≡ q.head → contents q ≡ []
contents-nil q h =
    let none_left : count q ≡ 0 = ground arith in ap (window q.slots q.max q.tail) none_left

-- In a valid ring of at least two slots with `head` on the last slot and `tail` on the first, where
-- `max - 1` pointers are queued, `queue_in` reports success, and the ring that it leaves is empty:
-- the pointers that were queued and the new one are gone, and `queue_out` returns NULL.
pub queue_in-loses :
    (q : Queue) (d : ℕ)
    → IsValid q
    → IsEdge q
    → 1 < q.max
    → (length (contents q) ≡ q.max - 1)
      × Returns
          (λ r. (r.0 ≡ success) × (contents r.1 ≡ []) × (queue_out r.1 ≡ ok (0, r.1)))
          (queue_in q d)
queue_in-loses q d v e two = (
  ground (arith, length-contents q, e.0, e.1),
  rw (queue_in-ok q v d (omega (arith, e.0, e.1))) (
      returns (
        refl,
        contents-nil (stored_at q d) (stored_at-meets q d e),
        queue_out-empty (stored_at q d) (stored_at-meets q d e),
      )),
)

-- `queue_init` with at least one slot gives a valid empty ring: from `calloc` always, from a pool
-- if the slots handed out are `max` in number.
pub queue_init-IsValid :
    (max fd : ℕ) (garbage : List ℕ)
    → 0 < max
    → length garbage ≡ max
    → IsValid (queue_init max fd garbage) × (contents (queue_init max fd garbage) ≡ [])
unfolding queue_init
queue_init-IsValid max fd garbage h g = ground (arith, length-replicate {A = ℕ} max 0)
