-- ===== src/Http/Hash.antt =====
-- The hash table of src/http_parser.c (`hash_set`, `hash_search`, `hash_ergodic` and the two that
-- treat a conflict). A bucket is NULL or a node. No function of the sources writes the `next` of a
-- node, so it is what the allocator left in fresh memory, the argument `left`. The loop of
-- `hash_conflictsearch` looks at the node that a stale pointer leads to, if there is one, and does not
-- follow its `next`: it walks on by `p++`, which never comes to NULL, so that it reads on until it leaves
-- the memory of the process. That other memory shows the key by chance is left out.
-- `hash_search` calls `hash_confilctsearch`, which no file defines: it is read as `hash_conflictsearch`.
-- The allocations succeed.
pub mod Fill
mod Tests
use lidas.Base.{
  ◌>>◌, ◌>>=◌, ℕ, zero, suc, ◌+◌, Option, none, some, List, [], ◌∷◌, ◌++◌, Bool, true, false,
  if◌then◌else◌, get_elem?, set, Run, ok, fault, out_of_fuel, or_fault,
}
use lidas.Text.Compare.{str_eq}

-- What a pointer shows that nobody has set: NULL; no memory of the process; a node, by what stands in it;
-- or nodes without the key that is looked for, which lead back to each other.
pub data Stale (A : Type 0) : Type 0 where
  null wild endless : Stale A
  linked : (content : A) (attri : List ℕ) → Stale A → Stale A

-- `while (p != NULL) p = p->next`
pub walk : {A : Type 0} → Stale A → Run (Unit {0})
walk null = ok tt
walk wild = fault
walk endless = out_of_fuel
walk (linked content attri s) = walk s

-- `struct http_attrihash`; its key is `attri`, and `content` a pointer to anything
pub record Attrihash (A : Type 0) : Type 0 where
  pub content : A
  pub attri : List ℕ
  pub next : Stale A

abbrev pub Table : Type 0 → Type 0
Table A = List (Option (Attrihash A))

-- the type of `crc32_port`
abbrev KeySet : Type 0
KeySet = List ℕ → ℕ → Run ℕ

module _ {A : Type 0} where
  -- `hash_conflictset`: it walks to the end of the chain, fills a new node, and links it nowhere
  pub hash_conflictset : Attrihash A → Run (Unit {0})
  unfolding walk
  hash_conflictset p = walk p.next

  pub set_bucket :
      (key : List ℕ) (content : A) (list : Table A) (cnt : ℕ) (left : Stale A)
      → Option (Attrihash A)
      → Run (Table A)
  unfolding hash_conflictset
  set_bucket key content list cnt left none =
      ok (set list cnt (some (record { content = content; attri = key; next = left })))
  set_bucket key content list cnt left (some p) = do hash_conflictset p; ok list

  -- `hash_set`
  unfoldable pub hash_set :
      KeySet
      → (key : List ℕ) (content : A) (list : Table A) (len : ℕ) (left : Stale A) → Run (Table A)
  unfolding set_bucket
  hash_set key_set key content list len left = do
    cnt ← key_set key len
    b ← or_fault (get_elem? list cnt)
    set_bucket key content list cnt left b

  -- the loop of `hash_conflictsearch`
  pub search_from : (key : List ℕ) → Stale A → Run (Option A)
  search_from key null = ok none
  search_from key wild = fault
  search_from key endless = fault
  search_from key (linked content attri s) = if str_eq attri key then ok (some content) else fault

  -- `hash_conflictsearch`
  pub hash_conflictsearch : (key : List ℕ) → Attrihash A → Run (Option A)
  unfolding search_from
  hash_conflictsearch key p = search_from key p.next

  pub search_bucket : (q : List ℕ) → Option (Attrihash A) → Run (Option A)
  unfolding hash_conflictsearch
  search_bucket q none = ok none
  search_bucket q (some p) =
      if str_eq p.attri q then ok (some p.content) else hash_conflictsearch q p

  -- `hash_search`
  unfoldable pub hash_search : KeySet → (q : List ℕ) (t : Table A) (len : ℕ) → Run (Option A)
  unfolding search_bucket
  hash_search key_set q t len = do
    cnt ← key_set q len
    b ← or_fault (get_elem? t cnt)
    search_bucket q b

  -- the inner loop of `hash_ergodic`
  unfoldable pub visit_from : Stale A → Run (List A)
  visit_from null = ok []
  visit_from wild = fault
  visit_from endless = out_of_fuel
  visit_from (linked content attri s) = visit_from s >>= (λ later. ok (content ∷ later))

  -- the contents that the handler is called with for one bucket
  unfoldable pub visit_bucket : Option (Attrihash A) → Run (List A)
  unfolding visit_from
  visit_bucket none = ok []
  visit_bucket (some p) = visit_from p.next >>= (λ later. ok (p.content ∷ later))

  unfoldable pub ergodic_from : (rounds : ℕ) (t : Table A) (i : ℕ) → Run (List A)
  ergodic_from zero t i = ok []
  ergodic_from (suc n) t i = do
    b ← or_fault (get_elem? t i)
    here ← visit_bucket b
    rest ← ergodic_from n t (i + 1)
    ok (here ++ rest)

  -- `hash_ergodic`: the contents that the handler is called with, in order
  unfoldable pub hash_ergodic : (len : ℕ) → Table A → Run (List A)
  unfolding ergodic_from visit_bucket
  hash_ergodic len t = ergodic_from len t 0
