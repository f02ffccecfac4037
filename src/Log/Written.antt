-- ===== src/Log/Written.antt =====
-- What `buf_log_destroy` of src/log.c writes to the log file
use lidas.Base.{
  ℕ, zero, suc, ◌<◌, ◌≡◌, refl, ap, some, List, [], ◌∷◌, ◌++◌, arith, length, replicate, ok, Status,
  success, Returns, returns,
}
use lidas.Log.{BufLog, LogCall, lock, unlock, write, farewell, write_entries, buf_log_destroy}

abbrev pub writes : List (List ℕ) → List LogCall
writes [] = []
writes (e ∷ es) = write e ∷ writes es

abbrev all_succeed : ℕ → List Status
all_succeed n = replicate n success

write_entries-all :
    (es : List (List ℕ))
    → write_entries (all_succeed (length es)) es ≡ writes es ++ (write farewell ∷ unlock ∷ [])
unfolding write_entries
write_entries-all [] = refl
write_entries-all (e ∷ es) = ap (λ l. write e ∷ l) (write_entries-all es)

-- If no call fails, `buf_log_destroy` writes the head of the log and then all entries in their
-- order, under the lock, and gives the lock back.
pub buf_log_destroy-writes :
    (h : BufLog)
    → buf_log_destroy success (all_succeed (suc (length h.entries))) (some h)
      ≡ ok (lock ∷ write h.content ∷ writes h.entries ++ (write farewell ∷ unlock ∷ []))
unfolding buf_log_destroy
buf_log_destroy-writes h = ap (λ l. ok (lock ∷ write h.content ∷ l)) (write_entries-all h.entries)

abbrev IsUnlock : LogCall → Type 0
IsUnlock lock = ⊥
IsUnlock unlock = Unit
IsUnlock (write e) = ⊥

abbrev pub NoUnlock : List LogCall → Type 0
NoUnlock [] = Unit
NoUnlock (c ∷ cs) = (¬ IsUnlock c) × NoUnlock cs

write_entries-keeps :
    (n : ℕ) (es : List (List ℕ)) → n < length es → NoUnlock (write_entries (all_succeed n) es)
unfolding write_entries
write_entries-keeps n [] h = absurd (omega (arith, h))
write_entries-keeps zero (e ∷ es) h = ((λ x. x), tt)
write_entries-keeps (suc n) (e ∷ es) h = ((λ x. x), write_entries-keeps n es (omega (arith, h)))

-- If a call of `write` fails before the last entry is written, `buf_log_destroy` returns with the
-- log file still locked.
pub buf_log_destroy-keeps_lock :
    (h : BufLog) (n : ℕ)
    → n < suc (length h.entries)
    → Returns NoUnlock (buf_log_destroy success (all_succeed n) (some h))
unfolding buf_log_destroy
buf_log_destroy-keeps_lock h zero l = returns ((λ x. x), ((λ x. x), tt))
buf_log_destroy-keeps_lock h (suc n) l =
    returns ((λ x. x), ((λ x. x), write_entries-keeps n h.entries (omega (arith, l))))
