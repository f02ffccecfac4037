-- ===== src/Http/Hash/Fill.antt =====
-- What a table holds after a number of calls of `hash_set`, and what `hash_search` finds in it.
use lidas.Base.{
  ℕ, zero, suc, ◌%◌, ◌<◌, ◌≡◌, refl, sym, ap, ◌∙◌, inl, inr, Option, none, some, List, [], ◌∷◌,
  arith, ◌==◌, if◌then◌else◌, ==_iff, ==_self, ne→==, Bool-cases, length, get_elem?, get_or, set,
  replicate, length-set, length-replicate, get_elem?-eq-get_or, get_or-set_self, get_or-set_ne,
  set-get_or, Run, ok, ◌>>=◌, Returns, returns, Returns-map, Returns-inv,
}
use lidas.Text.Compare.{str_eq, str_eq_self}
use lidas.Http.Crc.{crc32, crc32_port}
use lidas.Http.Hash.{
  null, search_from, walk, Attrihash, Table, hash_conflictset, set_bucket, hash_set,
  hash_conflictsearch, search_bucket, hash_search,
}

-- the bucket of a key
pub bucket : List ℕ → ℕ → ℕ
bucket q len = crc32 0 q % len

crc32_port-ok : (q : List ℕ) (len : ℕ) → 0 < len → crc32_port q len ≡ ok (bucket q len)
unfolding crc32_port bucket
crc32_port-ok q len h = rw (ne→== len 0 (omega arith))

bucket-lt : (q : List ℕ) (len : ℕ) → 0 < len → bucket q len < len
unfolding bucket
bucket-lt q len h = omega arith

module _ {A : Type 0} where
  abbrev pub slot : Table A → ℕ → Option (Attrihash A)
  slot t i = get_or t i none

  abbrev IsLast : Option (Attrihash A) → Type 0
  IsLast none = Unit
  IsLast (some p) = p.next ≡ null

  -- A table of `len` buckets that came from memory that was all zero.
  pub record IsClean (len : ℕ) (t : Table A) : Type 0 where
    pub size : length t ≡ len
    pub last : (i : ℕ) → IsLast (slot t i)

  abbrev pub node : List ℕ → A → Attrihash A
  node k v = record { content = v; attri = k; next = null }

  abbrev pub or_else : Option (Attrihash A) → Option (Attrihash A) → Option (Attrihash A)
  or_else (some p) q = some p
  or_else none q = q

  -- the first of the pairs whose key belongs to bucket `i`
  unfoldable pub first_in : (len i : ℕ) → List (List ℕ × A) → Option (Attrihash A)
  first_in len i [] = none
  first_in len i ((k, v) ∷ kvs) = if bucket k len == i then some (node k v) else first_in len i kvs

  -- the calls of `hash_set` for some pairs, in order
  unfoldable pub fill : (len : ℕ) → Table A → List (List ℕ × A) → Run (Table A)
  fill len t [] = ok t
  fill len t ((k, v) ∷ kvs) = do u ← hash_set crc32_port k v t len null; fill len u kvs

  -- what a bucket says to a key: its content, if it holds that very key
  unfoldable pub answer : List ℕ → Option (Attrihash A) → Option A
  answer q none = none
  answer q (some p) = if str_eq p.attri q then some p.content else none

  set_bucket_lem :
      (k : List ℕ) (v : A) (t : Table A) (i : ℕ) (b : Option (Attrihash A))
      → IsLast b
      → slot t i ≡ b
      → set_bucket k v t i null b ≡ ok (set t i (or_else b (some (node k v))))
  unfolding set_bucket hash_conflictset walk
  set_bucket_lem k v t i none l e = refl
  set_bucket_lem k v t i (some p) l e =
      let ends : walk p.next ≡ ok tt = ap walk l in
      rw ends (ap ok (sym (rw e at (set-get_or t i none))))

  search_bucket_lem :
      (q : List ℕ) (b : Option (Attrihash A)) → IsLast b → search_bucket q b ≡ ok (answer q b)
  unfolding search_bucket hash_conflictsearch search_from answer
  search_bucket_lem q none l = refl
  search_bucket_lem q (some p) l =
      let last : search_from q p.next ≡ ok none = ap (search_from q) l in ground (arith, last)

  module _ (len : ℕ) (pos : 0 < len) (t : Table A) (c : IsClean len t) where
    bucket-ok : (q : List ℕ) → get_elem? t (bucket q len) ≡ some (slot t (bucket q len))
    bucket-ok q =
        get_elem?-eq-get_or t (bucket q len) none (omega (arith, c.size, bucket-lt q len pos))

    -- `hash_set` on a table of zeroed memory: it fills an empty bucket with the pair, and leaves the
    -- table as it was if the bucket is taken.
    pub hash_set_lem :
        (k : List ℕ) (v : A)
        → hash_set crc32_port k v t len null
          ≡ ok (set t (bucket k len) (or_else (slot t (bucket k len)) (some (node k v))))
    unfolding hash_set
    hash_set_lem k v =
        rw (crc32_port-ok k len pos, bucket-ok k)
          (set_bucket_lem k v t (bucket k len) (slot t (bucket k len)) (c.last (bucket k len)) refl)

    -- `hash_search` on such a table never faults, and finds a key exactly if it is the one in its
    -- bucket.
    pub hash_search_lem :
        (q : List ℕ) → hash_search crc32_port q t len ≡ ok (answer q (slot t (bucket q len)))
    unfolding hash_search
    hash_search_lem q =
        rw (crc32_port-ok q len pos, bucket-ok q)
          (search_bucket_lem q (slot t (bucket q len)) (c.last (bucket q len)))

  set_slot :
      (t : Table A) (i : ℕ) (b : Option (Attrihash A))
      → i < length t
      → (j : ℕ) → slot (set t i b) j ≡ (if i == j then b else slot t j)
  set_slot t i b h j = elim (Bool-cases (i == j)) [
    | inl s ↦ rw s (let s' = (==_iff i j).0 s in rw (← s') (get_or-set_self t i b none h))
    | inr s ↦ rw s (get_or-set_ne t i j b none (ground arith))
  ]

  or_else-IsLast :
      (b : Option (Attrihash A)) (k : List ℕ) (v : A)
      → IsLast b
      → IsLast (or_else b (some (node k v)))
  or_else-IsLast none k v l = refl
  or_else-IsLast (some p) k v l = l

  or_else-none : (b : Option (Attrihash A)) → or_else b none ≡ b
  or_else-none none = refl
  or_else-none (some p) = refl

  or_else-taken :
      (b : Option (Attrihash A)) (p : Attrihash A) (r : Option (Attrihash A))
      → or_else (or_else b (some p)) r ≡ or_else b (some p)
  or_else-taken none p r = refl
  or_else-taken (some b) p r = refl

  module _ (len : ℕ) (pos : 0 < len) where
    abbrev offered : Table A → List ℕ → A → Option (Attrihash A)
    offered t k v = or_else (slot t (bucket k len)) (some (node k v))

    offered_slot :
        (t : Table A) (k : List ℕ) (v : A)
        → IsClean len t
        → (j : ℕ)
        → slot (set t (bucket k len) (offered t k v)) j
          ≡ (if bucket k len == j then offered t k v else slot t j)
    offered_slot t k v c j =
        set_slot t (bucket k len) (offered t k v) (omega (arith, c.size, bucket-lt k len pos)) j

    set-IsClean :
        (t : Table A) (k : List ℕ) (v : A)
        → IsClean len t
        → IsClean len (set t (bucket k len) (offered t k v))
    set-IsClean t k v c = record {
      size = length-set t (bucket k len) _ ∙ c.size;
      last = λ j. rw (offered_slot t k v c j) (elim (Bool-cases (bucket k len == j)) [
        | inl e ↦ rw e (or_else-IsLast (slot t (bucket k len)) k v (c.last (bucket k len)))
        | inr e ↦ rw e (c.last j)
      ]);
    }

    pub hash_set-IsClean :
        (t : Table A) (k : List ℕ) (v : A)
        → IsClean len t
        → Returns (IsClean len) (hash_set crc32_port k v t len null)
    hash_set-IsClean t k v c = rw (hash_set_lem len pos t c k v) (returns (set-IsClean t k v c))

    merge :
        (t : Table A) (k : List ℕ) (v : A) (kvs : List (List ℕ × A)) (i : ℕ)
        → or_else (if bucket k len == i then offered t k v else slot t i) (first_in len i kvs)
          ≡ or_else (slot t i) (first_in len i ((k, v) ∷ kvs))
    unfolding first_in
    merge t k v kvs i = elim (Bool-cases (bucket k len == i)) [
      | inl e ↦ rw e (
          or_else-taken (slot t (bucket k len)) (node k v) (first_in len i kvs)
          ∙ ap (λ j. or_else (slot t j) (some (node k v))) ((==_iff (bucket k len) i).0 e))
      | inr e ↦ rw e
    ]

    -- After the calls of `hash_set` for some pairs, in order, on a table of zeroed memory, each
    -- bucket that was empty holds the first of the pairs that belong to it, and each other bucket is
    -- as it was: no call faults, and none takes the place of an earlier one.
    pub fill_lem :
        (kvs : List (List ℕ × A)) (t : Table A)
        → IsClean len t
        → Returns
            (λ u.
              IsClean len u
              × ((i : ℕ) → i < len → slot u i ≡ or_else (slot t i) (first_in len i kvs)))
            (fill len t kvs)
    unfolding fill first_in
    fill_lem [] t c = returns (c, λ i h. sym (or_else-none (slot t i)))
    fill_lem ((k, v) ∷ kvs) t c = rw (hash_set_lem len pos t c k v) (
        Returns-map (fill_lem kvs (set t (bucket k len) (offered t k v)) (set-IsClean t k v c))
          λ u (d, h). (
            d,
            λ i below.
                h i below
                ∙ ap (λ b. or_else b (first_in len i kvs)) (offered_slot t k v c i)
                ∙ merge t k v kvs i,
          ))

    slot-blank : (n i : ℕ) → slot (replicate n none) i ≡ none
    slot-blank zero i = refl
    slot-blank (suc n) zero = refl
    slot-blank (suc n) (suc i) = slot-blank n i

    pub blank-IsClean : IsClean len (replicate len none)
    blank-IsClean = record {
      size = length-replicate len none;
      last = λ i. rw (slot-blank len i) tt;
    }

    -- In a table of at least one bucket that `hash_set` filled with some pairs from empty, each node in
    -- memory that was zeroed, so that its `next` is NULL, `hash_search` of a key looks at
    -- the first pair that belongs to the key's bucket: it finds that pair's content if the pair has
    -- that key, and nothing otherwise. A pair that met a taken bucket is never found.
    pub hash_search-fill :
        (q : List ℕ) (kvs : List (List ℕ × A))
        → (do u ← fill len (replicate len none) kvs; hash_search crc32_port q u len)
          ≡ ok (answer q (first_in len (bucket q len) kvs))
    hash_search-fill q kvs =
        let (u, e, w) = Returns-inv (fill_lem kvs (replicate len none) blank-IsClean) in
        rw (e, hash_search_lem len pos u w.0 q)
          (ap (λ b. ok (answer q b))
            (w.1 (bucket q len) (bucket-lt q len pos)
              ∙ ap (λ b. or_else b (first_in len (bucket q len) kvs))
                  (slot-blank len (bucket q len))))

    first_in-head :
        (k : List ℕ) (v : A) (kvs : List (List ℕ × A))
        → first_in len (bucket k len) ((k, v) ∷ kvs) ≡ some (node k v)
    unfolding first_in
    first_in-head k v kvs = rw (==_self (bucket k len))

    -- The first pair put into an empty table is found, whatever follows.
    pub hash_search-first :
        (k : List ℕ) (v : A) (kvs : List (List ℕ × A))
        → (do u ← fill len (replicate len none) ((k, v) ∷ kvs); hash_search crc32_port k u len)
          ≡ ok (some v)
    unfolding answer
    hash_search-first k v kvs =
        hash_search-fill k ((k, v) ∷ kvs) ∙ rw (first_in-head k v kvs, str_eq_self k)
