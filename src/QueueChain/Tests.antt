-- ===== src/QueueChain/Tests.antt =====
-- A linked queue of two nodes, at 64 and 128
use lidas.Base.{ℕ, ◌≡◌, refl, [], ◌∷◌, arith, ◌==◌, if◌then◌else◌, ok, fault, Returns}
use lidas.QueueChain.{Node, Control, queue_chain_in, queue_chain_out}
use lidas.QueueChain.Links.{Item, Holds}
use lidas.QueueChain.Enqueue.{queue_chain_in-appends}
use lidas.QueueChain.Dequeue.{queue_chain_out-oldest, queue_chain_out-last}

abbrev nodes : ℕ → Node
nodes a =
    if a == 64
    then record { prev = 0; next = 128; datum = 7 }
    else record { prev = 64; next = 0; datum = 8 }

abbrev two : Control
two = record { head = 128; tail = 64; cnt = 2; nodes = nodes }

two-Holds : Holds two ((64, 7) ∷ (128, 8) ∷ [])
two-Holds = record {
  links = (
    refl,
    ground arith,
    (ground arith, tt),
    refl,
    refl,
    (refl, ground arith, tt, refl, refl, (refl, refl)),
  );
  number = refl;
}

queue_chain_in-appends_example :
    Returns (λ c'. Holds c' ((64, 7) ∷ (128, 8) ∷ (192, 9) ∷ [])) (queue_chain_in 192 9 two)
queue_chain_in-appends_example =
    queue_chain_in-appends two ((64, 7) ∷ (128, 8) ∷ []) 192 9 two-Holds (ground arith)
      (ground arith, (ground arith, tt))

queue_chain_out-oldest_example :
    Returns
      (λ (datum, freed, c'). (datum ≡ 7) × (freed ≡ 64) × Holds c' ((128, 8) ∷ []))
      (queue_chain_out two)
queue_chain_out-oldest_example = queue_chain_out-oldest two (64, 7) (128, 8) [] two-Holds

abbrev one : Control
one = record {
  head = 64;
  tail = 64;
  cnt = 1;
  nodes = λ a. record { prev = 0; next = 0; datum = 7 };
}

queue_chain_out-last_test :
    ((x : Item) → Holds one (x ∷ []) → queue_chain_out one ≡ fault)
    × (Holds one [] → queue_chain_out one ≡ ok (0, 0, one))
queue_chain_out-last_test = queue_chain_out-last one
