-- ===== src/Heap/Insert.antt =====
-- `heap_init`, and `heap_insert` of a key that the root's key bounds.
use lidas.Base.{
  ℕ, zero, suc, ◌+◌, ◌/◌, ◌≤◌, ◌<◌, ◌≡◌, refl, ap, ◌∙◌, ◌≢◌, inl, inr, Bool, true, List, arith, ltb,
  ◌==◌, ltb→lt, ltb→le, le→leb, le→leb_false, ==_iff, ne→==, Bool-cases, length, set, replicate,
  length-set, length-replicate, get_or-set_self, get_or-set_ne, ok, Status, success, failure,
  Returns, returns, Returns-bind, Returns-map,
}
use native.Mathlib.Numerals.{add-one}
use lidas.Heap.{Entry, Heap, blank, sift, heap_init, heap_insert}
use lidas.Heap.Occurrences.{tally, occ, occ-set, occ-last}
use lidas.Heap.Order.{
  entry, key, IsOrdered, IsHeap, sift-climb, sift-stop, store-ok, key-set, key-set_ne,
}

-- `i` is a hole in an ordered array of `n` entries, into which the key `k` may still move.
record IsHole (p : List Entry) (n i k : ℕ) : Type 0 where
  elsewhere : (c : ℕ) → 2 ≤ c → c ≤ n → c ≢ i → c / 2 ≢ i → key p c ≤ key p (c / 2)
  below : (c : ℕ) → 2 ≤ c → c ≤ n → c / 2 ≡ i → key p c ≤ k
  across : (c : ℕ) → 2 ≤ c → c ≤ n → c / 2 ≡ i → 2 ≤ i → key p c ≤ key p (i / 2)

-- the array after the entry above the hole moved into it
abbrev lowered : List Entry → ℕ → List Entry
lowered p i = set p i (entry p (i / 2))

module _ (p : List Entry) (n i k : ℕ) (two : 2 ≤ i) (l : i < length p) (v : IsHole p n i k) where
  lowered-IsHole : i ≤ n → key p (i / 2) < k → IsHole (lowered p i) n (i / 2) k
  lowered-IsHole top less = record {
    elsewhere = λ c a b x y. ground (
      arith,
      key-set p i (entry p (i / 2)) l c,
      key-set p i (entry p (i / 2)) l (c / 2),
      v.elsewhere c a b,
      v.across c a b,
    );
    below = λ c a b x. ground (arith, key-set p i (entry p (i / 2)) l c, v.elsewhere c a b);
    across = λ c a b x y. ground (
      arith,
      key-set p i (entry p (i / 2)) l c,
      key-set p i (entry p (i / 2)) l (i / 2 / 2),
      v.elsewhere c a b,
      v.elsewhere (i / 2),
    );
  }

  filled-IsOrdered :
      (d : ℕ) → k ≤ key p (i / 2) → IsOrdered (set p i (record { key = k; datum = d })) n
  filled-IsOrdered d le c a b = ground (
    arith,
    key-set p i (record { key = k; datum = d }) l c,
    key-set p i (record { key = k; datum = d }) l (c / 2),
    v.elsewhere c a b,
    v.below c a b,
  )

-- what the loop leaves: a hole in which the key is in place
record IsSifted (f : Entry → Bool) (p : List Entry) (n i k d : ℕ) (r : List Entry × ℕ)
    : Type 0 where
  inside : (1 ≤ r.1) × (r.1 ≤ n)
  size : length r.0 ≡ length p
  slot : key r.0 0 ≡ key p 0
  ordered : IsOrdered (set r.0 r.1 (record { key = k; datum = d })) n
  same :
      occ f (set r.0 r.1 (record { key = k; datum = d })) n
      ≡ occ f (set p i (record { key = k; datum = d })) n

above_root : (p : List Entry) (i k : ℕ) → 2 ≤ i → k ≤ key p 1 → key p (i / 2) < k → 2 ≤ i / 2
above_root p i k two root less = elim (Bool-cases (i / 2 == 1)) [
  | inl e ↦ let e' = (==_iff (i / 2) 1).0 e in absurd (omega (arith, ap (key p) e'))
  | inr e ↦ ground arith
]

module _ (f : Entry → Bool) (n k d : ℕ) where
  occ-lowered :
      (p : List Entry) (i : ℕ)
      → 2 ≤ i
      → i ≤ n
      → i < length p
      → occ f (set (lowered p i) (i / 2) (record { key = k; datum = d })) n
        ≡ occ f (set p i (record { key = k; datum = d })) n
  occ-lowered p i two top l =
      let e : Entry = record { key = k; datum = d } in
      let other : entry (lowered p i) (i / 2) ≡ entry p (i / 2) =
        get_or-set_ne p i (i / 2) (entry p (i / 2)) blank (omega arith) in
      omega (
        arith,
        occ-set f p n i e (omega arith) top l,
        occ-set f p n i (entry p (i / 2)) (omega arith) top l,
        occ-set f (lowered p i) n (i / 2) e (omega arith) (omega arith)
            (rw (length-set p i (entry p (i / 2))) (omega arith)),
        ap (λ x. tally (f x)) other,
      )

  sift-IsSifted :
      (fuel : ℕ) (p : List Entry) (i : ℕ)
      → i < fuel
      → 2 ≤ i
      → i ≤ n
      → n < length p
      → k ≤ key p 1
      → IsHole p n i k
      → Returns (IsSifted f p n i k d) (sift fuel p i k)
  sift-IsSifted zero p i enough two top l root v = absurd (omega arith)
  sift-IsSifted (suc fuel) p i enough two top l root v = elim (Bool-cases (ltb (key p (i / 2)) k)) [
    | inl less ↦
        let less' = ltb→lt (key p (i / 2)) k less in
        let higher : 2 ≤ i / 2 = above_root p i k two root less' in
        let sized = length-set p i (entry p (i / 2)) in
        rw (sift-climb p i k fuel (omega arith) less') (
          Returns-map
            (sift-IsSifted fuel (lowered p i) (i / 2) (omega arith) higher (omega arith)
              (rw sized l)
              (rw (key-set p i (entry p (i / 2)) (omega arith) 1, ne→== i 1 (omega arith)) root)
              (lowered-IsHole p n i k two (omega arith) v top less'))
            λ r s. record {
              inside = s.inside;
              size = s.size ∙ sized;
              slot =
                  s.slot
                  ∙ rw (key-set p i (entry p (i / 2)) (omega arith) 0, ne→== i 0 (omega arith))
                      refl;
              ordered = s.ordered;
              same = s.same ∙ occ-lowered p i two top (omega arith);
            })
    | inr le ↦ rw (sift-stop p i k fuel (omega arith) (ltb→le _ _ le)) (
        returns (record {
          inside = (omega arith, top);
          size = refl;
          slot = refl;
          ordered = filled-IsOrdered p n i k two (omega arith) v d (ltb→le _ _ le);
          same = refl;
        }))
  ]

-- What a successful `heap_insert` of `(d, k)` into `h` leaves.
pub record Inserted (f : Entry → Bool) (d k : ℕ) (h : Heap) (r : Status × Heap) : Type 0 where
  pub done : r.0 ≡ success
  pub valid : IsHeap r.1
  pub size : r.1.size ≡ h.size
  pub cnt : r.1.cnt ≡ h.cnt + 1
  pub items : occ f r.1.p (h.cnt + 1) ≡ occ f h.p h.cnt + tally (f (record { key = k; datum = d }))

fresh-IsHole : (p : List Entry) (n k : ℕ) → 1 ≤ n → IsOrdered p n → IsHole p (n + 1) (n + 1) k
fresh-IsHole p n k h o = record {
  elsewhere = λ c a b x y. o c a (omega arith);
  below = λ c a b x. absurd (omega arith);
  across = λ c a b x y. absurd (omega arith);
}

-- `heap_insert` into a heap with an entry, with room, and with a root key of at least `k`, returns
-- success within `cnt + 2` rounds. The heap that it leaves is ordered, has one more entry, and for
-- every test of entries the number of its entries that pass is that of the old heap, plus one if the
-- new entry passes.
pub heap_insert_lem :
    (f : Entry → Bool) (fuel d k : ℕ) (h : Heap)
    → IsHeap h
    → h.cnt < h.size
    → 1 ≤ h.cnt
    → k ≤ key h.p 1
    → h.cnt + 1 < fuel
    → Returns (Inserted f d k h) (heap_insert fuel d k h)
unfolding heap_insert
heap_insert_lem f fuel d k h v room some_in root enough = rw (le→leb_false h.size h.cnt room) (
    Returns-bind
      (sift-IsSifted f (h.cnt + 1) k d fuel h.p (h.cnt + 1) (omega arith) (omega arith)
        (omega arith) (omega (arith, v.block)) root (fresh-IsHole h.p h.cnt k some_in v.ordered))
      λ (q, i) s.
        let e : Entry = record { key = k; datum = d } in
        rw (store-ok q i e (omega (arith, s.inside, s.size, v.block))) (
          returns (record {
            done = refl;
            valid = record {
              block = length-set q i e ∙ s.size ∙ v.block;
              used = omega arith;
              ordered = s.ordered;
            };
            size = refl;
            cnt = refl;
            items = s.same ∙ occ-last f h.p h.cnt e (omega (arith, v.block));
          })))

-- `heap_insert` into a full heap reports the failure and changes nothing.
heap_insert-full :
    (fuel d k : ℕ) (h : Heap) → h.size ≤ h.cnt → heap_insert fuel d k h ≡ ok (failure, h)
unfolding heap_insert
heap_insert-full fuel d k h full = rw (le→leb h.size h.cnt full)

-- `heap_init` with room for an entry gives a heap of the one entry, and a blank slot 0.
pub heap_init_lem :
    (size d k : ℕ) (h : Heap)
    → 1 ≤ size
    → Returns
        (λ r.
          (r.0 ≡ success)
          × IsHeap r.1
          × (r.1.size ≡ size)
          × (r.1.cnt ≡ 1)
          × (key r.1.p 0 ≡ 0)
          × (entry r.1.p 1 ≡ record { key = k; datum = d }))
        (heap_init true size d k h)
unfolding heap_init
heap_init_lem size d k h room =
    let e : Entry = record { key = k; datum = d } in
    let blanks : List Entry = replicate (size + 1) blank in
    let many = length-replicate {A = Entry} (size + 1) blank in
    rw (store-ok blanks 1 e (rw many (omega arith))) (
      returns (
        refl,
        record {
          block = length-set blanks 1 e ∙ many;
          used = room;
          ordered = λ c a b. absurd (omega arith);
        },
        refl,
        refl,
        rw (key-set_ne blanks 1 0 e (omega arith), add-one) refl,
        get_or-set_self blanks 1 e blank (rw many (omega arith)),
      ))
