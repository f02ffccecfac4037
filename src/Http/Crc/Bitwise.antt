-- ===== src/Http/Crc/Bitwise.antt =====
-- The table and the loop of `crc32` compute the cyclic redundancy check with the reversed polynomial
-- 0xEDB88320, defined bit by bit.
use lidas.Base.{
  ℕ, zero, suc, ◌+◌, ◌*◌, ◌/◌, ◌%◌, ◌<◌, ◌≡◌, refl, sym, ap, ap₂, ◌∙◌, inl, inr, true, List, [],
  ◌∷◌, arith, ◌==◌, if◌then◌else◌, ==_iff, ne→==, Bool-cases, get_or, fault, Returns, returns,
  holds_below, holds_below-at,
}
use Prim.Native.Nat.{bit_xor}
use lidas.Http.Crc.{crc32_tab, crc32_round, crc32_loop, crc32, crc32_port}
use lidas.Http.Crc.Xor.{
  xor-zero, xor_comm, xor_medial, half-xor, parity-xor, xor_byte, xor-shift, and_byte,
}

abbrev polynomial : ℕ
polynomial = 0xedb8_8320

-- what a bit that leaves subtracts
abbrev carry : ℕ → ℕ
carry bit = if bit == 1 then polynomial else 0

-- one bit of the reference: the lowest bit leaves, and subtracts the polynomial if it was set
crc_bit : ℕ → ℕ
crc_bit x = bit_xor (x / 2) (carry (x % 2))

crc_bits : ℕ → ℕ → ℕ
unfolding crc_bit
crc_bits zero x = x
crc_bits (suc n) x = crc_bits n (crc_bit x)

-- the reference for a text: each byte is added into the low bits, and eight bits leave
pub reference_loop : ℕ → List ℕ → ℕ
reference_loop crc [] = crc
reference_loop crc (b ∷ buf) = reference_loop (crc_bits 8 (bit_xor crc b)) buf

abbrev pub reference : ℕ → List ℕ → ℕ
reference crc buf = bit_xor (reference_loop (bit_xor crc 0xffff_ffff) buf) 0xffff_ffff

abbrev Bytes : List ℕ → Type 0
Bytes [] = Unit
Bytes (b ∷ s) = (b < 256) × Bytes s

table_checked : holds_below (λ i. get_or crc32_tab i 0 == crc_bits 8 i) 256 ≡ true
unfolding holds_below crc_bits crc_bit crc32_tab
table_checked = refl

carry-xor : (x y : ℕ) → carry ((x + y) % 2) ≡ bit_xor (carry (x % 2)) (carry (y % 2))
carry-xor x y = elim (Bool-cases (x % 2 == 1)) [
  | inl a ↦ elim (Bool-cases (y % 2 == 1)) [
    | inl b ↦ rw (a, b, ne→== ((x + y) % 2) 1 (ground arith))
    | inr b ↦ let c : (x + y) % 2 ≡ 1 = ground arith in rw (a, b, c)
  ]
  | inr a ↦ elim (Bool-cases (y % 2 == 1)) [
    | inl b ↦ let c : (x + y) % 2 ≡ 1 = ground arith in rw (a, b, c)
    | inr b ↦ rw (a, b, ne→== ((x + y) % 2) 1 (ground arith))
  ]
]

crc_bit-xor : (x y : ℕ) → crc_bit (bit_xor x y) ≡ bit_xor (crc_bit x) (crc_bit y)
unfolding crc_bit
crc_bit-xor x y =
    rw (half-xor x y, parity-xor x y, carry-xor x y)
      (xor_medial (x / 2) (y / 2) (carry (x % 2)) (carry (y % 2)))

crc_bits-xor : (n x y : ℕ) → crc_bits n (bit_xor x y) ≡ bit_xor (crc_bits n x) (crc_bits n y)
unfolding crc_bits
crc_bits-xor zero x y = refl
crc_bits-xor (suc n) x y =
    ap (crc_bits n) (crc_bit-xor x y) ∙ crc_bits-xor n (crc_bit x) (crc_bit y)

abbrev doubled : ℕ → ℕ → ℕ
doubled zero x = x
doubled (suc n) x = 2 * doubled n x

crc_bit-even : (x : ℕ) → crc_bit (2 * x) ≡ x
unfolding crc_bit
crc_bit-even x =
    let half : 2 * x / 2 ≡ x = omega arith in
    let bit : 2 * x % 2 ≡ 0 = omega arith in rw (half, bit, xor-zero)

shifts : (n x : ℕ) → crc_bits n (doubled n x) ≡ x
unfolding crc_bits
shifts zero x = refl
shifts (suc n) x = ap (crc_bits n) (crc_bit-even (doubled n x)) ∙ shifts n x

crc_bits-shift : (x : ℕ) → crc_bits 8 (x * 256) ≡ x
crc_bits-shift x = let e : x * 256 ≡ doubled 8 x = omega arith in rw e (shifts 8 x)

table-crc_bits : (i : ℕ) → i < 256 → get_or crc32_tab i 0 ≡ crc_bits 8 i
table-crc_bits i h =
    (==_iff _ _).0
      (holds_below-at (λ j. get_or crc32_tab j 0 == crc_bits 8 j) 256 i table_checked h)

-- Eight bits of a word: the low byte is looked up, and the rest moves down.
crc_bits-table : (x : ℕ) → crc_bits 8 x ≡ bit_xor (get_or crc32_tab (x % 256) 0) (x / 256)
crc_bits-table x =
    let split : x ≡ bit_xor (x / 256 * 256) (x % 256) =
      omega (arith, xor_byte (x / 256) (x % 256) (omega arith)) in
    ap (crc_bits 8) split
    ∙ crc_bits-xor 8 (x / 256 * 256) (x % 256)
    ∙ ap₂ bit_xor (crc_bits-shift (x / 256)) (sym (table-crc_bits (x % 256) (omega arith)))
    ∙ xor_comm (x / 256) (get_or crc32_tab (x % 256) 0)

round-crc_bits : (c b : ℕ) → b < 256 → crc32_round c b ≡ crc_bits 8 (bit_xor c b)
unfolding crc32_round
round-crc_bits c b h =
    let above : bit_xor c b / 256 ≡ c / 256 =
      let none_left : b / 256 ≡ 0 = omega arith in xor-shift c b ∙ rw (none_left, xor-zero) in
    rw (and_byte (bit_xor c b), ← above) (sym (crc_bits-table (bit_xor c b)))

loop-reference_loop : (c : ℕ) (buf : List ℕ) → Bytes buf → crc32_loop c buf ≡ reference_loop c buf
unfolding crc32_loop reference_loop
loop-reference_loop c [] h = refl
loop-reference_loop c (b ∷ buf) h =
    rw (round-crc_bits c b h.0) (loop-reference_loop (crc_bits 8 (bit_xor c b)) buf h.1)

-- For every start value and every text of bytes `crc32` is the bit-by-bit check of that text.
pub crc32-reference : (c : ℕ) (buf : List ℕ) → Bytes buf → crc32 c buf ≡ reference c buf
unfolding crc32
crc32-reference c buf h =
    ap (λ x. bit_xor x 0xffff_ffff) (loop-reference_loop (bit_xor c 0xffff_ffff) buf h)

-- With a table of at least one bucket `crc32_port` gives the index of a bucket; with none it
-- divides by zero.
pub crc32_port-bucket :
    (q : List ℕ) (len : ℕ)
    → (0 < len → Returns (λ i. i < len) (crc32_port q len)) × (len ≡ 0 → crc32_port q len ≡ fault)
unfolding crc32_port
crc32_port-bucket q len = (λ h. rw (ne→== len 0 (omega arith)) (returns (omega arith)), λ h. rw h)
