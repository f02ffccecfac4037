-- ===== src/Heap/Delete.antt =====
-- `heap_max_delete` and `heap_traversal`.
use lidas.Base.{
  ℕ, zero, suc, ◌+◌, ◌-◌, ◌/◌, ◌≤◌, ◌<◌, ◌≡◌, refl, sym, ap, ◌∙◌, ◌⊎◌, inl, inr, Bool, Option, none,
  some, List, [], ◌∷◌, arith, ltb, leb, ◌==◌, if◌then◌else◌, le→ltb, le→leb, ne→==, Bool-cases,
  length, set, get_or-set_self, get_or-set_ne, ok, Returns, returns,
}
use lidas.Heap.{Entry, Heap, blank, choose_child, percolate, heap_max_delete, visit, heap_traversal}
use lidas.Heap.Occurrences.{occ, occ-set, tally}
use lidas.Heap.Order.{
  entry, key, IsOrdered, IsHeap, load-ok, store-ok, key-set_ne, key-set_self, root_greatest,
}

-- Every entry but the root is below one of the root's two children.
below_child :
    (k : ℕ) (p : List Entry) (cnt c : ℕ)
    → IsOrdered p cnt
    → c < k
    → 2 ≤ c
    → c ≤ cnt
    → (key p c ≤ key p 2) ⊎ (key p c ≤ key p 3)
below_child zero p cnt c o h a b = absurd (omega arith)
below_child (suc k) p cnt c o h a b = elim (Bool-cases (leb c 3)) [
  | inl e ↦ elim (Bool-cases (c == 2)) [
    | inl two ↦ inl (ground arith)
    | inr three ↦ inr (ground arith)
  ]
  | inr e ↦ ground (arith, o c, below_child k p cnt (c / 2) o)
]

module _ (p : List Entry) (n : ℕ) (o : IsOrdered p (n + 1)) (three : 3 ≤ n)
    (l : n + 1 < length p) where
  larger : ℕ
  larger = if ltb (key p 2) (key p 3) then 3 else 2

  choose_child-ok : choose_child p n 1 ≡ ok larger
  unfolding choose_child larger
  choose_child-ok =
      rw (ne→== 2 n (omega arith), load-ok p 3 (omega arith), load-ok p 2 (omega arith))
        (ground arith)

  last_below : key p (n + 1) ≤ key p larger
  unfolding larger
  last_below = ground (arith, below_child (n + 2) p (n + 1) (n + 1) o)

  larger-lt : larger < length p
  unfolding larger
  larger-lt = ground arith

  percolate-stops : (fuel : ℕ) → percolate (suc fuel) p n 1 (entry p (n + 1)) ≡ ok (p, 1)
  unfolding percolate
  percolate-stops fuel = rw (
    le→leb 2 n (omega arith),
    choose_child-ok,
    load-ok p larger larger-lt,
    le→ltb (key p larger) (key p (n + 1)) last_below,
  )

-- What `heap_max_delete` leaves of a heap `h` of at least four entries.
pub record Deleted (f : Entry → Bool) (h : Heap) (r : Option ℕ × Heap) : Type 0 where
  pub address : r.0 ≡ some 1
  pub slot : entry r.1.p 1 ≡ entry h.p h.cnt
  pub others : (j : ℕ) → 2 ≤ j → entry r.1.p j ≡ entry h.p j
  pub cnt : r.1.cnt + 1 ≡ h.cnt
  pub items : occ f r.1.p r.1.cnt + tally (f (entry h.p 1)) ≡ occ f h.p h.cnt
  disorder : IsOrdered r.1.p r.1.cnt → (j : ℕ) → 2 ≤ j → j ≤ r.1.cnt → key h.p j ≤ key h.p h.cnt

delete-step :
    (f : Entry → Bool) (fuel n size : ℕ) (p : List Entry)
    → IsHeap (record { size = size; cnt = suc n; p = p })
    → 3 ≤ n
    → Returns
        (Deleted f (record { size = size; cnt = suc n; p = p }))
        (heap_max_delete (suc fuel) (record { size = size; cnt = suc n; p = p }))
unfolding heap_max_delete occ
delete-step f fuel n size p v three =
    let l : n + 1 < length p = omega (arith, v.block, v.used) in
    let top : suc n ≡ n + 1 = omega arith in
    let o : IsOrdered p (n + 1) = rw (← top) v.ordered in
    let last = entry p (suc n) in
    let less : suc n - 1 ≡ n = omega arith in
    let stops : percolate (suc fuel) p n 1 last ≡ ok (p, 1) =
      rw top (percolate-stops p n o three l fuel) in
    let others = λ (j : ℕ) (a : 2 ≤ j). get_or-set_ne p 1 j last blank (omega arith) in
    let slot = get_or-set_self p 1 last blank (omega arith) in
    rw
      (
        ne→== (suc n) 0 (omega arith),
        load-ok p (suc n) (omega arith),
        less,
        stops,
        store-ok p 1 last (omega arith),
      )
      (returns (record {
        address = refl;
        slot = slot;
        others = others;
        cnt = omega arith;
        items = omega (arith, occ-set f p n 1 last (omega arith) (omega arith) (omega arith));
        disorder = λ w j a b. omega (
          arith,
          root_greatest (set p 1 last) n j w (omega arith) b,
          key-set_ne p 1 j last (omega arith),
          key-set_self p 1 last (omega arith),
        );
      }))

delete-any :
    (f : Entry → Bool) (fuel cnt size : ℕ) (p : List Entry)
    → IsHeap (record { size = size; cnt = cnt; p = p })
    → 4 ≤ cnt
    → 1 ≤ fuel
    → Returns
        (Deleted f (record { size = size; cnt = cnt; p = p }))
        (heap_max_delete fuel (record { size = size; cnt = cnt; p = p }))
delete-any f zero cnt size p v four enough = absurd (omega arith)
delete-any f (suc fuel) zero size p v four enough = absurd (omega arith)
delete-any f (suc fuel) (suc n) size p v four enough = delete-step f fuel n size p v (omega arith)

delete-eq :
    (fuel n size : ℕ) (p : List Entry)
    → IsHeap (record { size = size; cnt = suc n; p = p })
    → 3 ≤ n
    → heap_max_delete (suc fuel) (record { size = size; cnt = suc n; p = p })
      ≡ ok (some 1, record { size = size; cnt = n; p = set p 1 (entry p (suc n)) })
unfolding heap_max_delete
delete-eq fuel n size p v three =
    let l : n + 1 < length p = omega (arith, v.block, v.used) in
    let top : suc n ≡ n + 1 = omega arith in
    let o : IsOrdered p (n + 1) = rw (← top) v.ordered in
    let last = entry p (suc n) in
    let less : suc n - 1 ≡ n = omega arith in
    let stops : percolate (suc fuel) p n 1 last ≡ ok (p, 1) =
      rw top (percolate-stops p n o three l fuel) in
    rw
      (
        ne→== (suc n) 0 (omega arith),
        load-ok p (suc n) (omega arith),
        less,
        stops,
        store-ok p 1 last (omega arith),
      )
      refl

-- The heap that `heap_max_delete` leaves of at least four entries: the last entry is in slot 1.
pub heap_max_delete-eq :
    (fuel : ℕ) (h : Heap)
    → IsHeap h
    → 4 ≤ h.cnt
    → 1 ≤ fuel
    → heap_max_delete fuel h
      ≡ ok (some 1, record h { cnt = h.cnt - 1; p = set h.p 1 (entry h.p h.cnt) })
heap_max_delete-eq zero h v four enough = absurd (omega (arith, enough))
heap_max_delete-eq (suc fuel) h v four enough =
    let n = h.cnt - 1 in
    let top : h.cnt ≡ suc n = omega (arith, four) in
    let g : Heap = record { size = h.size; cnt = suc n; p = h.p } in
    let same : h ≡ g = ap (λ c. record h { cnt = c }) top in
    let w : IsHeap g = rw same at v in
    let e = delete-eq fuel n h.size h.p w (omega (arith, four)) in
    ap (heap_max_delete (suc fuel)) same
    ∙ e
    ∙ ap (λ c. ok (some 1, record { size = h.size; cnt = n; p = set h.p 1 (entry h.p c) }))
        (sym top)

-- `heap_max_delete` of an ordered heap of at least four entries returns, after one look at the
-- root's children, the address of slot 1. It has removed the root's entry, but that slot now holds
-- what was the last entry, not the one removed; every other slot is as it was; and unless the last
-- entry had the greatest key of those left, the heap is no longer ordered.
pub heap_max_delete_lem :
    (f : Entry → Bool) (fuel : ℕ) (h : Heap)
    → IsHeap h
    → 4 ≤ h.cnt
    → 1 ≤ fuel
    → Returns (Deleted f h) (heap_max_delete fuel h)
heap_max_delete_lem f fuel h v four enough = delete-any f fuel h.cnt h.size h.p v four enough

-- Of an empty heap it is NULL and changes nothing.
heap_max_delete-empty : (fuel : ℕ) (h : Heap) → h.cnt ≡ 0 → heap_max_delete fuel h ≡ ok (none, h)
unfolding heap_max_delete
heap_max_delete-empty fuel h e = ground arith

pub data_from : List Entry → ℕ → ℕ → List ℕ
data_from p i zero = []
data_from p i (suc n) = (entry p i).datum ∷ data_from p (i + 1) n

visit-data_from :
    (n : ℕ) (p : List Entry) (i : ℕ) → i + n ≤ length p → visit n p i ≡ ok (data_from p i n)
unfolding visit data_from
visit-data_from zero p i h = refl
visit-data_from (suc n) p i h =
    rw (load-ok p i (omega arith), visit-data_from n p (i + 1) (omega arith))

-- `heap_traversal` of a heap calls the handler once for each entry, in the order of the slots.
pub heap_traversal_lem : (h : Heap) → IsHeap h → heap_traversal h ≡ ok (data_from h.p 1 h.cnt)
unfolding heap_traversal
heap_traversal_lem h v = visit-data_from h.cnt h.p 1 (omega (arith, v.block, v.used))
