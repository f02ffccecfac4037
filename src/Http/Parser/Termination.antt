-- ===== src/Http/Parser/Termination.antt =====
-- The loop of `http_parser` ends: each round takes a line off the text.
use lidas.Base.{
  ℕ, zero, suc, ◌<◌, ◌≡◌, refl, ◌⊎◌, inl, inr, List, [], ◌∷◌, arith, ◌==◌, length, fault, or_fault,
  Ends, Ends-bind, Ends-or_fault, Ends-if, Returns-inv,
}
use lidas.Text.Tokens.{strtok, length-strtok, strtok-nil}
use lidas.Text.Literals.{codes}
use lidas.Http.Hash.{Table, null}
use lidas.Http.Hash.Fill.{IsClean, hash_set-IsClean}
use lidas.Http.Parser.{
  method_test, protocal_test, lida_breakline, c_string, skip_blanks, peek, header_loop, parse_text,
  http_parser,
}

peek-cases : (s : List ℕ) → (peek s ≡ fault) ⊎ (0 < length s)
unfolding peek
peek-cases [] = inl refl
peek-cases (c ∷ s) = inr (omega arith)

peek-Ends : (s : List ℕ) → Ends (peek s)
unfolding peek
peek-Ends [] = tt
peek-Ends (c ∷ []) = tt
peek-Ends (c ∷ d ∷ s) = tt

header_loop-Ends :
    (fuel : ℕ) (s : List ℕ) (t : Table (List ℕ))
    → length s < fuel
    → IsClean 29 t
    → Ends (header_loop fuel null s t)
unfolding header_loop
header_loop-Ends zero s t h c = absurd (omega arith)
header_loop-Ends (suc fuel) s t h c = elim (peek-cases s) [
  | inl e ↦ rw e tt
  | inr some_left ↦
      let (capture, s₁) = strtok (codes ": ") s in
      let (content_cap, s₂) = strtok (codes "\n") s₁ in
      let shorter : length s₂ < length s =
        omega
          (arith, (length-strtok (codes ": ") s).1 some_left, (length-strtok (codes "\n") s₁).0) in
      Ends-bind (peek s) _ (peek-Ends s) λ stop. Ends-if (stop == 10) _ _ tt (
        Ends-bind (or_fault content_cap) _ (Ends-or_fault content_cap) λ content.
          Ends-bind (or_fault capture) _ (Ends-or_fault capture) λ key.
            let value = c_string (lida_breakline (skip_blanks content)) in
            let (t', set, clean) = Returns-inv (hash_set-IsClean 29 (omega arith) t key value c) in
            rw set (
              Ends-bind (peek s₂) _ (peek-Ends s₂) λ more.
                Ends-if (more == 0) _ _ tt (header_loop-Ends fuel s₂ t' (omega arith) clean)))
]

parse_text-Ends :
    (list : Table (List ℕ)) (h : List ℕ) → IsClean 29 list → Ends (parse_text null list h)
unfolding parse_text
parse_text-Ends list [] clean = rw (strtok-nil (codes " ")) tt
parse_text-Ends list (c ∷ h) clean =
    let (m, s₁) = strtok (codes " ") (c ∷ h) in
    let (url, s₂) = strtok (codes " ") s₁ in
    let (p, s₃) = strtok (codes "\r\n") s₂ in
    let shorter : length s₃ < length (c ∷ h) = omega (
      arith,
      (length-strtok (codes " ") (c ∷ h)).1 (omega arith),
      (length-strtok (codes " ") s₁).0,
      (length-strtok (codes "\r\n") s₂).0,
    ) in
    Ends-bind (or_fault m) _ (Ends-or_fault m) λ method.
      Ends-if (method_test method) _ _
        (Ends-bind (or_fault p) _ (Ends-or_fault p) λ protocal.
          Ends-if (protocal_test protocal) _ _
            (Ends-bind (header_loop (length (c ∷ h)) null s₃ list) _
              (header_loop-Ends (length (c ∷ h)) s₃ list shorter clean) λ r. tt)
            tt)
        tt

-- With a table of 29 buckets in which the `next` of every node is NULL, and new nodes in memory that
-- was zeroed, `http_parser` comes to an end on every text: in a request, in NULL, or in a fault. (With
-- stale memory whose nodes lead back to each other, the loop of `hash_conflictset` has no end.)
pub http_parser-Ends :
    (list : Table (List ℕ)) (h : List ℕ) → IsClean 29 list → Ends (http_parser null list h)
unfolding http_parser
http_parser-Ends list h clean = parse_text-Ends list (c_string h) clean
