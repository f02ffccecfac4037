-- ===== src/Queue/Spec.antt =====
-- What a client of the ring expects: a first-in-first-out queue of at most `cap` pointers.
use lidas.Base.{ℕ, List, [], ◌∷◌, ◌++◌, Status, success, failure, leb, if◌then◌else◌, length}

abbrev pub Fifo : Type 0
Fifo = List ℕ

-- a call of a client
pub data Op : Type 0 where
  put : ℕ → Op
  get : Op

-- what the client sees of a call
pub data Reply : Type 0 where
  stored : Status → Reply
  taken : ℕ → Reply

abbrev pub pop : Fifo → ℕ × Fifo
pop [] = (0, [])
pop (x ∷ xs) = (x, xs)

abbrev pub push : ℕ → Fifo → ℕ → Status × Fifo
push cap xs d = if leb cap (length xs) then (failure, xs) else (success, xs ++ (d ∷ []))
