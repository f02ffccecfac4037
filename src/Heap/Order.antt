-- ===== src/Heap/Order.antt =====
-- The order that `heap_insert` works towards: no entry has a smaller key than its children.
use lidas.Base.{
  ℕ, zero, suc, ◌+◌, ◌/◌, ◌≤◌, ◌<◌, ◌≡◌, ap, ◌≢◌, inl, inr, List, arith, ◌==◌, if◌then◌else◌,
  lt→ltb, le→ltb, ==_iff, Bool-cases, length, get_or, set, get_elem?-eq-get_or, get_or-set_self,
  get_or-set_ne, ok,
}
use lidas.Heap.{Entry, Heap, blank, load, store, sift}

abbrev pub entry : List Entry → ℕ → Entry
entry p i = get_or p i blank

abbrev pub key : List Entry → ℕ → ℕ
key p i = (entry p i).key

-- Among the entries 1 to `cnt`, no key is above that of the entry at half the index.
abbrev pub IsOrdered : List Entry → ℕ → Type 0
IsOrdered p cnt = (c : ℕ) → 2 ≤ c → c ≤ cnt → key p c ≤ key p (c / 2)

-- the block holds the slot 0 and `size` entries, of which `cnt` are in use
pub record IsHeap (h : Heap) : Type 0 where
  pub block : length h.p ≡ h.size + 1
  pub used : h.cnt ≤ h.size
  pub ordered : IsOrdered h.p h.cnt

root_greatest_below :
    (k : ℕ) (p : List Entry) (cnt i : ℕ)
    → IsOrdered p cnt
    → i < k
    → 1 ≤ i
    → i ≤ cnt
    → key p i ≤ key p 1
root_greatest_below zero p cnt i o h a b = absurd (omega arith)
root_greatest_below (suc k) p cnt i o h a b = elim (Bool-cases (i == 1)) [
  | inl e ↦ ground arith
  | inr e ↦ ground (arith, o i, root_greatest_below k p cnt (i / 2) o)
]

-- In an ordered array the first entry has the greatest key.
pub root_greatest :
    (p : List Entry) (cnt i : ℕ) → IsOrdered p cnt → 1 ≤ i → i ≤ cnt → key p i ≤ key p 1
root_greatest p cnt i o a b = root_greatest_below (suc i) p cnt i o (omega arith) a b

pub load-ok : (p : List Entry) (i : ℕ) → i < length p → load p i ≡ ok (entry p i)
load-ok p i h = rw (get_elem?-eq-get_or p i blank h)

pub store-ok : (p : List Entry) (i : ℕ) (e : Entry) → i < length p → store p i e ≡ ok (set p i e)
store-ok p i e h = rw (lt→ltb i (length p) h)

module _ (p : List Entry) (i k : ℕ) (fuel : ℕ) (h : i < length p) where
  -- one round of the loop of `heap_insert`
  pub sift-climb :
      key p (i / 2) < k → sift (suc fuel) p i k ≡ sift fuel (set p i (entry p (i / 2))) (i / 2) k
  unfolding sift
  sift-climb l = rw (
    load-ok p (i / 2) (omega arith),
    lt→ltb (key p (i / 2)) k l,
    store-ok p i (entry p (i / 2)) h,
  )

  pub sift-stop : k ≤ key p (i / 2) → sift (suc fuel) p i k ≡ ok (p, i)
  unfolding sift
  sift-stop l = rw (load-ok p (i / 2) (omega arith), le→ltb (key p (i / 2)) k l)

pub key-set_ne : (p : List Entry) (i j : ℕ) (e : Entry) → i ≢ j → key (set p i e) j ≡ key p j
key-set_ne p i j e h = ap (λ x. x.key) (get_or-set_ne p i j e blank h)

pub key-set_self : (p : List Entry) (i : ℕ) (e : Entry) → i < length p → key (set p i e) i ≡ e.key
key-set_self p i e h = ap (λ x. x.key) (get_or-set_self p i e blank h)

pub key-set :
    (p : List Entry) (i : ℕ) (e : Entry)
    → i < length p
    → (j : ℕ) → key (set p i e) j ≡ (if i == j then e.key else key p j)
key-set p i e h j = elim (Bool-cases (i == j)) [
  | inl s ↦ rw s (let s' = (==_iff i j).0 s in rw (← s') (key-set_self p i e h))
  | inr s ↦ rw s (key-set_ne p i j e (ground arith))
]
