-- ===== src/Queue/Tests.antt =====
-- The ring at small inputs, and its theorems at states that meet their hypotheses.
use lidas.Base.{◌≡◌, refl, List, [], ◌∷◌, arith, length, ok, success, Returns}
use lidas.Queue.{Queue, queue_init, queue_in, queue_out}
use lidas.Queue.Spec.{Op, put, get, stored, taken}
use lidas.Queue.Spec
use lidas.Queue.Valid.{IsValid}
use lidas.Queue.Refine.{contents, queue_in_refines, queue_out_refines, run, spec_run, run_refines}
use lidas.Queue.Overrun.{queue_in-loses, queue_init-IsValid}

-- 8, then 9, round the end of four slots
abbrev wrapped : Queue
wrapped = record { max = 4; head = 1; tail = 3; slots = 9 ∷ 0 ∷ 0 ∷ 8 ∷ [] }

-- 1, 2 and 3 from the first slot on
abbrev edge : Queue
edge = record { max = 4; head = 3; tail = 0; slots = 1 ∷ 2 ∷ 3 ∷ 0 ∷ [] }

abbrev script : List Op
script = put 7 ∷ get ∷ get ∷ put 6 ∷ get ∷ get ∷ get ∷ []

wrapped-IsValid : IsValid wrapped
wrapped-IsValid = omega arith

edge-IsValid : IsValid edge
edge-IsValid = omega arith

four_puts :
    run (queue_init 4 0 []) (put 1 ∷ put 2 ∷ put 3 ∷ put 4 ∷ get ∷ [])
    ≡ ok (stored success ∷ stored success ∷ stored success ∷ stored success ∷ taken 0 ∷ [])
unfolding run queue_init queue_in queue_out
four_puts = refl

queue_in_refines_test :
    Returns
      (λ r. IsValid r.1 × ((r.0, contents r.1) ≡ Spec.push 3 (8 ∷ 9 ∷ []) 7) × (r.1.max ≡ 4))
      (queue_in wrapped 7)
queue_in_refines_test = queue_in_refines wrapped wrapped-IsValid 7 (λ e. omega (arith, e.0))

queue_out_refines_test :
    Returns
      (λ r. IsValid r.1 × ((r.0, contents r.1) ≡ Spec.pop (8 ∷ 9 ∷ [])) × (r.1.max ≡ 4))
      (queue_out wrapped)
queue_out_refines_test = queue_out_refines wrapped wrapped-IsValid

run_refines_example : run wrapped script ≡ ok (spec_run 3 (8 ∷ 9 ∷ []) script)
run_refines_example = run_refines script wrapped wrapped-IsValid (omega arith)

queue_in-loses_example :
    (length (contents edge) ≡ 3)
    × Returns
        (λ r. (r.0 ≡ success) × (contents r.1 ≡ []) × (queue_out r.1 ≡ ok (0, r.1)))
        (queue_in edge 4)
queue_in-loses_example = queue_in-loses edge 4 edge-IsValid (refl, refl) (omega arith)

queue_init-IsValid_test :
    IsValid (queue_init 3 5 (9 ∷ 9 ∷ 9 ∷ [])) × (contents (queue_init 3 5 (9 ∷ 9 ∷ 9 ∷ [])) ≡ [])
queue_init-IsValid_test = queue_init-IsValid 3 5 (9 ∷ 9 ∷ 9 ∷ []) (omega arith) refl
