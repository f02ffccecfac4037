-- ===== src/Http/Parser/Lines.antt =====
-- The header lines of a request, and what the loop of `http_parser` makes of them.
use lidas.Base.{
  ℕ, zero, suc, ◌<◌, ◌≡◌, refl, ◌∙◌, false, some, List, [], ◌∷◌, ◌++◌, arith, ◌==◌, length, ok,
  ◌>>=◌, bind-eq, bind_assoc,
}
use mathlib.Core.List.{append_assoc}
use lidas.Text.Tokens.{strtok, Free, strtok-token}
use lidas.Text.Literals.{codes}
use lidas.Http.Crc.{crc32_port}
use lidas.Http.Hash.{Stale, null, Table, hash_set}
use lidas.Http.Hash.Fill.{fill}
use lidas.Http.Parser.{lida_breakline, c_string, skip_blanks, peek, header_loop}

-- a header: the first byte of its name, the rest of the name, and its value
pub record Header : Type 0 where
  pub initial : ℕ
  pub name : List ℕ
  pub value : List ℕ

abbrev pub key : Header → List ℕ
key h = h.initial ∷ h.name

-- `name: value` and the end of the line
abbrev print_header : Header → List ℕ → List ℕ
print_header h rest = key h ++ (58 ∷ 32 ∷ h.value ++ (13 ∷ 10 ∷ rest))

abbrev pub print_headers : List Header → List ℕ → List ℕ
print_headers [] rest = rest
print_headers (h ∷ hs) rest = print_header h (print_headers hs rest)

-- the value does not begin with a blank
abbrev Unspaced : List ℕ → Type 0
Unspaced [] = Unit
Unspaced (c ∷ v) = (c == 32) ≡ false

-- no colon, blank, end of line or NUL in the name, and none of the last two in the value
pub record IsHeader (h : Header) : Type 0 where
  pub name : Free (codes ": ") (key h)
  pub one_line : Free (10 ∷ 0 ∷ []) (key h)
  pub value : Free (13 ∷ 10 ∷ 0 ∷ []) h.value
  pub unspaced : Unspaced h.value

abbrev pub AreHeaders : List Header → Type 0
AreHeaders [] = Unit
AreHeaders (h ∷ hs) = IsHeader h × AreHeaders hs

abbrev pub pairs : List Header → List (List ℕ × List ℕ)
pairs [] = []
pairs (h ∷ hs) = (key h, h.value) ∷ pairs hs

-- the value as the loop finds it: behind a blank and before a carriage return
value_kept :
    (v : List ℕ) → Free (13 ∷ 10 ∷ 0 ∷ []) v → c_string (lida_breakline (v ++ (13 ∷ []))) ≡ v
unfolding c_string lida_breakline
value_kept [] f = refl
value_kept (c ∷ v) f = ground (arith, value_kept v f.1, f.0)

blanks_kept : (v : List ℕ) → Unspaced v → skip_blanks (32 ∷ v ++ (13 ∷ [])) ≡ v ++ (13 ∷ [])
unfolding skip_blanks
blanks_kept [] u = refl
blanks_kept (c ∷ v) u = rw u

line-Free : (v : List ℕ) → Free (13 ∷ 10 ∷ 0 ∷ []) v → Free (codes "\n") (v ++ (13 ∷ []))
line-Free [] f = (refl, tt)
line-Free (c ∷ v) f = (ground (arith, f.0), line-Free v f.1)

line_of :
    (v rest : List ℕ)
    → Free (13 ∷ 10 ∷ 0 ∷ []) v
    → strtok (codes "\n") (32 ∷ v ++ (13 ∷ 10 ∷ rest)) ≡ (some (32 ∷ v ++ (13 ∷ [])), rest)
line_of v rest f =
    rw (← append_assoc v (13 ∷ []) (10 ∷ rest))
      (strtok-token (codes "\n") 32 (v ++ (13 ∷ [])) 10 rest (refl, line-Free v f) refl)

module _ (left : Stale (List ℕ)) (t : Table (List ℕ)) where
  -- One round of the loop: the name may have a line feed in front, as the first one has.
  round :
      (fuel c : ℕ) (n v rest : List ℕ) (next more : ℕ)
      → Free (codes ": ") (c ∷ n)
      → Free (13 ∷ 10 ∷ 0 ∷ []) v
      → Unspaced v
      → peek (c ∷ n ++ (58 ∷ 32 ∷ v ++ (13 ∷ 10 ∷ rest))) ≡ ok next
      → (next == 10) ≡ false
      → peek rest ≡ ok more
      → (more == 0) ≡ false
      → header_loop (suc fuel) left (c ∷ n ++ (58 ∷ 32 ∷ v ++ (13 ∷ 10 ∷ rest))) t
        ≡ (do u ← hash_set crc32_port (c ∷ n) v t 29 left; header_loop fuel left rest u)
  unfolding header_loop
  round fuel c n v rest next more name value unspaced p q r s =
      rw
        (
          p,
          q,
          strtok-token (codes ": ") c n 58 (32 ∷ v ++ (13 ∷ 10 ∷ rest)) name refl,
          line_of v rest value,
          blanks_kept v unspaced,
          value_kept v value,
          r,
          s,
        )
        refl

abbrev after : List ℕ → ℕ
after [] = 58
after (c ∷ n) = c

-- the byte behind the first of a header, which is neither a line feed nor a NUL
peek-header :
    (h : Header) (rest : List ℕ)
    → IsHeader h
    → (peek (print_header h rest) ≡ ok (after h.name))
      × ((after h.name == 10) ≡ false)
      × ((after h.name == 0) ≡ false)
unfolding peek
peek-header h rest is = second h.initial h.name h.value rest is.one_line
  where
    second :
        (c : ℕ) (n v rest : List ℕ)
        → Free (10 ∷ 0 ∷ []) (c ∷ n)
        → (peek (c ∷ n ++ (58 ∷ 32 ∷ v ++ (13 ∷ 10 ∷ rest))) ≡ ok (after n))
          × ((after n == 10) ≡ false)
          × ((after n == 0) ≡ false)
    second c [] v rest f = (refl, refl, refl)
    second c (d ∷ n) v rest f = (refl, ground (arith, f.1.0), ground (arith, f.1.0))

abbrev pub ending : List ℕ → List ℕ
ending body = 13 ∷ 10 ∷ body

abbrev next_byte : List Header → ℕ
next_byte [] = 10
next_byte (h ∷ hs) = after h.name

peek-next :
    (hs : List Header) (body : List ℕ)
    → AreHeaders hs
    → (peek (print_headers hs (ending body)) ≡ ok (next_byte hs)) × ((next_byte hs == 0) ≡ false)
unfolding peek
peek-next [] body are = (refl, refl)
peek-next (h ∷ hs) body are =
    let (p, q, r) = peek-header h (print_headers hs (ending body)) are.0 in (p, r)

-- The loop over the lines puts the pairs into the table, and stops at the empty line.
loop-fill :
    (hs : List Header) (body : List ℕ) (fuel : ℕ) (t : Table (List ℕ))
    → AreHeaders hs
    → length hs < fuel
    → header_loop fuel null (print_headers hs (ending body)) t
      ≡ (do u ← fill 29 t (pairs hs); ok (some (u, ending body)))
unfolding header_loop fill peek
loop-fill hs body zero t are h = absurd (omega arith)
loop-fill [] body (suc fuel) t are h = refl
loop-fill (h ∷ hs) body (suc fuel) t are enough =
    let rest = print_headers hs (ending body) in
    let (p, q, r) = peek-header h rest are.0 in
    let (p', r') = peek-next hs body are.1 in
    round null t fuel h.initial h.name h.value rest (after h.name) (next_byte hs) are.0.name
      are.0.value are.0.unspaced p q p' r'
    ∙ bind-eq (hash_set crc32_port (key h) h.value t 29 null) _ _
        (λ u. loop-fill hs body fuel u are.1 (omega arith))
    ∙ bind_assoc (hash_set crc32_port (key h) h.value t 29 null) (λ u. fill 29 u (pairs hs))
        (λ u. ok (some (u, ending body)))

-- The same from the line feed that the version leaves in front of the first header.
pub first-fill :
    (h : Header) (hs : List Header) (body : List ℕ) (fuel : ℕ) (t : Table (List ℕ))
    → AreHeaders (h ∷ hs)
    → length (h ∷ hs) < fuel
    → header_loop fuel null (10 ∷ print_headers (h ∷ hs) (ending body)) t
      ≡ (do u ← fill 29 t ((10 ∷ key h, h.value) ∷ pairs hs); ok (some (u, ending body)))
unfolding fill peek
first-fill h hs body zero t are enough = absurd (omega arith)
first-fill h hs body (suc fuel) t are enough =
    let rest = print_headers hs (ending body) in
    let (p', r') = peek-next hs body are.1 in
    round null t fuel 10 (key h) h.value rest h.initial (next_byte hs) (refl, are.0.name)
      are.0.value are.0.unspaced refl (ground (arith, are.0.one_line.0)) p' r'
    ∙ bind-eq (hash_set crc32_port (10 ∷ key h) h.value t 29 null) _ _
        (λ u. loop-fill hs body fuel u are.1 (omega arith))
    ∙ bind_assoc (hash_set crc32_port (10 ∷ key h) h.value t 29 null) (λ u. fill 29 u (pairs hs))
        (λ u. ok (some (u, ending body)))
