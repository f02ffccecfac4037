-- ===== src/Heap/Tests.antt =====
-- The heap at small inputs, and its theorems at states that meet their hypotheses.
use lidas.Base.{
  ℕ, zero, suc, ◌≤◌, ◌≡◌, refl, Bool, true, some, [], ◌∷◌, arith, ltb, ok, out_of_fuel, ◌>>=◌,
  success, Returns,
}
use lidas.Heap.{
  Entry, Heap, blank, heap_init, heap_insert, heap_max_delete, heap_traversal, sift, percolate,
  choose_child,
}
use lidas.Heap.Order.{entry, key, IsOrdered, IsHeap, root_greatest}
use lidas.Heap.Insert.{Inserted, heap_insert_lem, heap_init_lem}
use lidas.Heap.Diverge.{heap_insert-diverges, heap_insert-fresh}
use lidas.Heap.Delete.{Deleted, heap_max_delete_lem, data_from, heap_traversal_lem}

abbrev e : ℕ → ℕ → Entry
e k d = record { key = k; datum = d }

abbrev five : Heap
five = record { size = 6; cnt = 5; p = blank ∷ e 9 1 ∷ e 7 2 ∷ e 8 3 ∷ e 4 4 ∷ e 5 5 ∷ blank ∷ [] }

abbrev anything : Heap
anything = record { size = 0; cnt = 0; p = [] }

abbrev is_heavy : Entry → Bool
is_heavy x = ltb 6 x.key

five-IsOrdered : IsOrdered five.p 5
five-IsOrdered zero a b = absurd (omega arith)
five-IsOrdered (suc zero) a b = absurd (omega arith)
five-IsOrdered (suc (suc zero)) a b = omega arith
five-IsOrdered (suc (suc (suc zero))) a b = omega arith
five-IsOrdered (suc (suc (suc (suc zero)))) a b = omega arith
five-IsOrdered (suc (suc (suc (suc (suc zero))))) a b = omega arith
five-IsOrdered (suc (suc (suc (suc (suc (suc c)))))) a b = absurd (omega arith)

five-IsHeap : IsHeap five
five-IsHeap = record { block = refl; used = omega arith; ordered = five-IsOrdered }

-- the root (9, 1) is removed; slot 1, whose address is returned, holds (5, 5)
delete_five :
    heap_max_delete 3 five
    ≡ ok (
      some 1,
      record five { cnt = 4; p = blank ∷ e 5 5 ∷ e 7 2 ∷ e 8 3 ∷ e 4 4 ∷ e 5 5 ∷ blank ∷ [] },
    )
unfolding heap_max_delete percolate choose_child
delete_five = refl

insert_five :
    heap_insert 9 6 8 five
    ≡ ok (
      success,
      record five { cnt = 6; p = blank ∷ e 9 1 ∷ e 7 2 ∷ e 8 3 ∷ e 4 4 ∷ e 5 5 ∷ e 8 6 ∷ [] },
    )
unfolding heap_insert sift
insert_five = refl

root_greatest_test : key five.p 5 ≤ key five.p 1
root_greatest_test = root_greatest five.p 5 5 five-IsOrdered (omega arith) (omega arith)

heap_insert_lem_example : Returns (Inserted is_heavy 6 8 five) (heap_insert 7 6 8 five)
heap_insert_lem_example =
    heap_insert_lem is_heavy 7 6 8 five five-IsHeap (omega arith) (omega arith) (omega arith)
      (omega arith)

heap_insert-diverges_example : heap_insert 1000 6 10 five ≡ out_of_fuel
heap_insert-diverges_example =
    heap_insert-diverges 1000 6 10 five five-IsHeap (omega arith) (omega arith) (omega arith)
      (omega arith)

heap_insert-fresh_test :
    (heap_init true 2 0 0 anything >>= λ r. heap_insert 50 7 1 r.1) ≡ out_of_fuel
heap_insert-fresh_test = heap_insert-fresh 50 2 7 1 anything (omega arith) (omega arith)

heap_init_lem_test :
    Returns
      (λ r.
        (r.0 ≡ success)
        × IsHeap r.1
        × (r.1.size ≡ 3)
        × (r.1.cnt ≡ 1)
        × (key r.1.p 0 ≡ 0)
        × (entry r.1.p 1 ≡ e 4 9))
      (heap_init true 3 9 4 anything)
heap_init_lem_test = heap_init_lem 3 9 4 anything (omega arith)

heap_max_delete_lem_example : Returns (Deleted is_heavy five) (heap_max_delete 1 five)
heap_max_delete_lem_example =
    heap_max_delete_lem is_heavy 1 five five-IsHeap (omega arith) (omega arith)

heap_traversal_lem_test : heap_traversal five ≡ ok (data_from five.p 1 5)
heap_traversal_lem_test = heap_traversal_lem five five-IsHeap
