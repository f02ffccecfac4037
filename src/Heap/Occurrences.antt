-- ===== src/Heap/Occurrences.antt =====
-- How many entries of a heap pass a test.
use lidas.Base.{
  ℕ, zero, suc, ◌+◌, ◌≤◌, ◌<◌, ◌≡◌, refl, ap, ap₂, inl, inr, Bool, List, arith, ◌==◌, if◌then◌else◌,
  ==_iff, Bool-cases, length, set, get_or-set_self, get_or-set_ne,
}
use lidas.Heap.{Entry, blank}
use lidas.Heap.Order.{entry}

abbrev pub tally : Bool → ℕ
tally b = if b then 1 else 0

-- how many of the entries 1 to `n` pass a test: with every test, the entries as a multiset
unfoldable pub occ : (Entry → Bool) → List Entry → ℕ → ℕ
occ f p zero = 0
occ f p (suc n) = occ f p n + tally (f (entry p (suc n)))

occ-set_above :
    (f : Entry → Bool) (p : List Entry) (n i : ℕ) (e : Entry)
    → n < i
    → occ f (set p i e) n ≡ occ f p n
unfolding occ
occ-set_above f p zero i e h = refl
occ-set_above f p (suc n) i e h =
    ap₂ (λ a x. a + tally (f x)) (occ-set_above f p n i e (omega arith))
      (get_or-set_ne p i (suc n) e blank (omega arith))

occ-set_last :
    (f : Entry → Bool) (p : List Entry) (n i : ℕ) (e : Entry)
    → i ≡ suc n
    → i < length p
    → occ f (set p i e) (suc n) + tally (f (entry p i)) ≡ occ f p (suc n) + tally (f e)
unfolding occ
occ-set_last f p n i e h l =
    let same : entry (set p i e) (suc n) ≡ e = rw (← h) (get_or-set_self p i e blank l) in
    let at : entry p i ≡ entry p (suc n) = ap (entry p) h in
    let below = occ-set_above f p n i e (omega arith) in
    omega (arith, below, ap (λ x. tally (f x)) same, ap (λ x. tally (f x)) at)

-- A write trades the old entry for the new one.
pub occ-set :
    (f : Entry → Bool) (p : List Entry) (n i : ℕ) (e : Entry)
    → 1 ≤ i
    → i ≤ n
    → i < length p
    → occ f (set p i e) n + tally (f (entry p i)) ≡ occ f p n + tally (f e)
unfolding occ
occ-set f p zero i e a b l = absurd (omega arith)
occ-set f p (suc n) i e a b l = elim (Bool-cases (i == suc n)) [
  | inl h ↦ occ-set_last f p n i e ((==_iff i (suc n)).0 h) l
  | inr h ↦
      rw (get_or-set_ne p i (suc n) e blank (ground arith))
        (omega (arith, occ-set f p n i e a (ground arith) l))
]

pub occ-last :
    (f : Entry → Bool) (p : List Entry) (n : ℕ) (e : Entry)
    → n + 1 < length p
    → occ f (set p (n + 1) e) (n + 1) ≡ occ f p n + tally (f e)
unfolding occ
occ-last f p n e l =
    let top : n + 1 ≡ suc n = omega arith in
    let at : entry (set p (n + 1) e) (suc n) ≡ e =
      rw (← top) (get_or-set_self p (n + 1) e blank l) in
    let whole : occ f (set p (n + 1) e) (n + 1) ≡ occ f (set p (n + 1) e) (suc n) =
      ap (occ f (set p (n + 1) e)) top in
    omega (arith, whole, occ-set_above f p n (n + 1) e (omega arith), ap (λ x. tally (f x)) at)
