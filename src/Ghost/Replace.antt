-- ===== src/Ghost/Replace.antt =====
-- Which listeners `check_client` (src/ghost.c) replaces, and whether it returns
use lidas.Base.{
  ℕ, zero, suc, ◌+◌, ◌≡◌, refl, sym, ap, ◌∙◌, ◌≢◌, Bool, true, false, List, [], ◌∷◌, ◌++◌, arith,
  length, ok, out_of_fuel, append_assoc, get_elem?-behind, set-behind, length-append, ne→==, ==_iff,
  replicate,
}
use lidas.Ghost.{Forked, parent, master, restart, Waited, changed, unchanged, check_client}

-- `p` is not in the list
abbrev pub Lacks : ℕ → List ℕ → Type 0
Lacks p [] = Unit
Lacks p (x ∷ xs) = (x ≢ p) × Lacks p xs

-- `old` stands in the list once, and `new` takes its place
pub data Swap (old new : ℕ) : List ℕ → List ℕ → Type 0 where
  here : {xs : List ℕ} → Lacks old xs → Swap old new (old ∷ xs) (new ∷ xs)
  there : {x : ℕ} {xs ys : List ℕ} → x ≢ old → Swap old new xs ys → Swap old new (x ∷ xs) (x ∷ ys)

restart-Lacks :
    (rest before : List ℕ) (chid : ℕ) (forks : List Forked)
    → Lacks chid rest
    → restart (length rest) (length before) chid forks (before ++ rest)
      ≡ ok (master (before ++ rest, forks))
unfolding restart
restart-Lacks [] before chid forks h = refl
restart-Lacks (x ∷ rest) before chid forks h =
    let joined = append_assoc before (x ∷ []) rest in
    let i : length before + 1 ≡ length (before ++ (x ∷ [])) =
      omega (arith, length-append before (x ∷ [])) in
    rw (get_elem?-behind before x rest, ne→== x chid h.0, i)
      (rw joined at (restart-Lacks rest (before ++ (x ∷ [])) chid forks h.1))

restart-Swap :
    (chid pid : ℕ) (forks : List Forked) (before rest rest' : List ℕ)
    → Swap chid pid rest rest'
    → restart (length rest) (length before) chid (parent pid ∷ forks) (before ++ rest)
      ≡ ok (master (before ++ rest', forks))
unfolding restart
restart-Swap chid pid forks before rest rest' (here {xs} h) =
    let joined = append_assoc before (pid ∷ []) xs in
    let i : length before + 1 ≡ length (before ++ (pid ∷ [])) =
      omega (arith, length-append before (pid ∷ [])) in
    rw
      (get_elem?-behind before chid xs, (==_iff chid chid).1 refl, set-behind before chid pid xs, i)
      (rw joined at (restart-Lacks xs (before ++ (pid ∷ [])) chid forks h))
restart-Swap chid pid forks before rest rest' (there {x} {xs} {ys} n s) =
    let joined = append_assoc before (x ∷ []) xs in
    let joined' = append_assoc before (x ∷ []) ys in
    let i : length before + 1 ≡ length (before ++ (x ∷ [])) =
      omega (arith, length-append before (x ∷ [])) in
    rw (get_elem?-behind before x xs, ne→== x chid n, i)
      (rw (joined, joined') at (restart-Swap chid pid forks (before ++ (x ∷ [])) xs ys s))

-- The list of the listeners after some have died, each by a signal, and each has been replaced.
pub data Replaced : List (ℕ × ℕ) → List ℕ → List ℕ → Type 0 where
  done : {lst : List ℕ} → Replaced [] lst lst
  next :
      {dead new : ℕ} {ds : List (ℕ × ℕ)} {lst lst' last : List ℕ}
      → Swap dead new lst lst'
      → Replaced ds lst' last
      → Replaced ((dead, new) ∷ ds) lst last

abbrev pub deaths : List (ℕ × ℕ) → List Waited → List Waited
deaths [] later = later
deaths ((dead, new) ∷ ds) later = changed dead true ∷ deaths ds later

abbrev pub births : List (ℕ × ℕ) → List Forked → List Forked
births [] later = later
births ((dead, new) ∷ ds) later = parent new ∷ births ds later

length-Swap : {old new : ℕ} {xs ys : List ℕ} → Swap old new xs ys → length ys ≡ length xs
length-Swap (here h) = refl
length-Swap (there n s) = ap suc (length-Swap s)

-- `status` after deaths by a signal
abbrev pub status_after : List (ℕ × ℕ) → Bool → Bool
status_after [] status = status
status_after (d ∷ ds) status = true

status_after-true : (ds : List (ℕ × ℕ)) → status_after ds true ≡ true
status_after-true [] = refl
status_after-true (d ∷ ds) = refl

check_client-deaths :
    (n : ℕ) (later : List Waited) (forks : List Forked) (status : Bool) (ds : List (ℕ × ℕ))
    (lst last : List ℕ)
    → n ≡ length lst
    → Replaced ds lst last
    → (check_client false n (deaths ds later) (births ds forks) status lst
        ≡ check_client false n later forks (status_after ds status) last)
      × (length last ≡ length lst)
unfolding check_client
check_client-deaths n later forks status [] lst last e done = (refl, refl)
check_client-deaths n later forks status ((dead, new) ∷ ds) lst last e (next {lst'} s r) =
    let same = length-Swap s in
    let one = restart-Swap dead new (births ds forks) [] lst lst' s in
    let (more, kept) =
      check_client-deaths n later forks true ds lst' last (omega (arith, same)) r in
    (
      rw (e, one)
          (rw (← e)
            (more ∙ ap (λ b. check_client false n later forks b last) (status_after-true ds))),
      kept ∙ same,
    )

-- If listeners die by signals, each has one place in the list and every `fork` succeeds, then
-- whatever `waitpid` returns after them, `check_client` goes on as if it had just been called with the
-- list in which every dead listener is replaced by its successor and every other stands where it was,
-- with as many entries as before; only its note that some listener has died is set.
pub check_client-replaces :
    (ds : List (ℕ × ℕ)) (later : List Waited) (forks : List Forked) (status : Bool)
    (lst last : List ℕ)
    → Replaced ds lst last
    → (check_client false (length lst) (deaths ds later) (births ds forks) status lst
        ≡ check_client false (length last) later forks (status_after ds status) last)
      × (length last ≡ length lst)
check_client-replaces ds later forks status lst last r =
    let (run, same) = check_client-deaths (length lst) later forks status ds lst last refl r in
    (
      run ∙ ap (λ n. check_client false n later forks (status_after ds status) last) (sym same),
      same,
    )

unchanged-spins :
    (n rounds : ℕ) (forks : List Forked) (status : Bool) (lst : List ℕ)
    → n ≡ length lst
    → Lacks 0 lst
    → check_client false n (replicate rounds unchanged) forks status lst ≡ out_of_fuel
unfolding check_client
unchanged-spins n zero forks status lst e h = refl
unchanged-spins n (suc rounds) forks false lst e h = unchanged-spins n rounds forks false lst e h
unchanged-spins n (suc rounds) forks true lst e h =
    let none_found = restart-Lacks lst [] 0 forks h in
    rw (e, none_found) (unchanged-spins n rounds forks true lst e h)

-- If the master still has a child after the deaths, `waitpid` with WNOHANG returns 0 for as long as
-- that child runs, and `check_client` does not return meanwhile: however often it has called
-- `waitpid`, it calls it again.
pub check_client-spins :
    (ds : List (ℕ × ℕ)) (rounds : ℕ) (forks : List Forked) (status : Bool) (lst last : List ℕ)
    → Replaced ds lst last
    → Lacks 0 last
    → check_client false
        (length lst)
        (deaths ds (replicate rounds unchanged))
        (births ds forks)
        status
        lst
      ≡ out_of_fuel
check_client-spins ds rounds forks status lst last r h =
    let (run, same) =
      check_client-deaths (length lst) (replicate rounds unchanged) forks status ds lst last refl
        r in
    run ∙ unchanged-spins (length lst) rounds forks (status_after ds status) last (sym same) h
