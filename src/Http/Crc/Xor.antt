-- ===== src/Http/Crc/Xor.antt =====
-- The laws of `bit_xor` and of a mask of eight ones at variables, from the digit recursion that the
-- native operations stand for.
use lidas.Base.{
  ℕ, zero, suc, ◌+◌, ◌*◌, ◌/◌, ◌%◌, ◌^◌, ◌≤◌, ◌<◌, min, ◌≡◌, refl, sym, ap, ap₂, ◌∙◌, arith,
}
use Prim.Native.Nat.{bit_and, bit_xor, digits, differ, bit_and-bitwise, bit_xor-bitwise}
use native.Mathlib.Nat.{le_refl, pow-suc}

module _ (last : ℕ → ℕ) (op : ℕ → ℕ → ℕ) where
  enough_digits :
      (x y n : ℕ) → x ≤ n → (m : ℕ) → x ≤ m → digits last op m x y ≡ digits last op n x y
  enough_digits zero y zero le zero le' = refl
  enough_digits zero y zero le (suc m) le' = refl
  enough_digits zero y (suc n) le zero le' = refl
  enough_digits zero y (suc n) le (suc m) le' = refl
  enough_digits (suc x) y zero le m le' = absurd (omega arith)
  enough_digits (suc x) y (suc n) le zero le' = absurd (omega arith)
  enough_digits (suc x) y (suc n) le (suc m) le' =
      rw (enough_digits (suc x / 2) (y / 2) n (omega arith) m (omega arith))

differ_bits : (x y : ℕ) → x < 2 → y < 2 → differ x y ≡ (x + y) % 2
differ_bits zero zero p q = refl
differ_bits zero (suc zero) p q = refl
differ_bits (suc zero) zero p q = refl
differ_bits (suc zero) (suc zero) p q = refl
differ_bits (suc (suc x)) y p q = absurd (omega arith)
differ_bits x (suc (suc y)) p q = absurd (omega arith)

zero-xor : (b : ℕ) → bit_xor 0 b ≡ b
zero-xor b = bit_xor-bitwise 0 b

xor_digit : (a b : ℕ) → bit_xor a b ≡ bit_xor (a / 2) (b / 2) * 2 + (a + b) % 2
xor_digit zero b = omega (arith, zero-xor b, zero-xor (b / 2))
xor_digit (suc a) b = omega (
  arith,
  bit_xor-bitwise (suc a) b,
  bit_xor-bitwise (suc a / 2) (b / 2),
  enough_digits (λ x. x) differ (suc a / 2) (b / 2) (suc a / 2) (le_refl _) a (omega arith),
  differ_bits (suc a % 2) (b % 2) (omega arith) (omega arith),
)

pub half-xor : (a b : ℕ) → bit_xor a b / 2 ≡ bit_xor (a / 2) (b / 2)
half-xor a b = omega (arith, xor_digit a b)

pub parity-xor : (a b : ℕ) → bit_xor a b % 2 ≡ (a + b) % 2
parity-xor a b = omega (arith, xor_digit a b)

-- Without a carry: the lowest binary digit of a mask is the lesser of the two.
and_digit : (x y : ℕ) → min (x % 2) (y % 2) + 2 * bit_and (x / 2) (y / 2) ≡ bit_and x y
and_digit (suc x) y = omega (
  enough_digits (λ d. 0) min (suc x / 2) (y / 2) (suc x / 2) (le_refl _) x (omega arith),
  bit_and-bitwise (suc x / 2) (y / 2),
  bit_and-bitwise (suc x) y,
  arith,
)
and_digit zero y = omega (bit_and-bitwise 0 (y / 2), bit_and-bitwise 0 y, arith)

-- Laws by induction on a bound of the numbers: each step halves them.
comm_below : (n a b : ℕ) → a ≤ n → b ≤ n → bit_xor a b ≡ bit_xor b a
comm_below zero zero zero p q = refl
comm_below zero (suc a) b p q = absurd (omega arith)
comm_below zero a (suc b) p q = absurd (omega arith)
comm_below (suc n) a b p q =
    omega (
      arith,
      xor_digit a b,
      xor_digit b a,
      comm_below n (a / 2) (b / 2) (omega arith) (omega arith),
    )

pub xor_comm : (a b : ℕ) → bit_xor a b ≡ bit_xor b a
xor_comm a b = comm_below (a + b) a b (omega arith) (omega arith)

assoc_below :
    (n a b c : ℕ) → a ≤ n → b ≤ n → c ≤ n → bit_xor (bit_xor a b) c ≡ bit_xor a (bit_xor b c)
assoc_below zero zero zero zero p q r = refl
assoc_below zero (suc a) b c p q r = absurd (omega arith)
assoc_below zero a (suc b) c p q r = absurd (omega arith)
assoc_below zero a b (suc c) p q r = absurd (omega arith)
assoc_below (suc n) a b c p q r = omega (
  arith,
  xor_digit (bit_xor a b) c,
  xor_digit a (bit_xor b c),
  parity-xor a b,
  parity-xor b c,
  ap (λ x. bit_xor x (c / 2)) (half-xor a b),
  ap (bit_xor (a / 2)) (half-xor b c),
  assoc_below n (a / 2) (b / 2) (c / 2) (omega arith) (omega arith) (omega arith),
)

xor_assoc : (a b c : ℕ) → bit_xor (bit_xor a b) c ≡ bit_xor a (bit_xor b c)
xor_assoc a b c = assoc_below (a + b + c) a b c (omega arith) (omega arith) (omega arith)

pub xor-zero : (a : ℕ) → bit_xor a 0 ≡ a
xor-zero a = xor_comm a 0 ∙ zero-xor a

-- The middle two of four may be exchanged.
pub xor_medial :
    (a b c d : ℕ) → bit_xor (bit_xor a b) (bit_xor c d) ≡ bit_xor (bit_xor a c) (bit_xor b d)
xor_medial a b c d =
    xor_assoc a b (bit_xor c d)
    ∙ ap (bit_xor a)
        (sym (xor_assoc b c d) ∙ ap (λ x. bit_xor x d) (xor_comm b c) ∙ xor_assoc c b d)
    ∙ sym (xor_assoc a c (bit_xor b d))

xor_fields_below : (k q r : ℕ) → r < 2 ^ k → bit_xor (q * 2 ^ k) r ≡ q * 2 ^ k + r
xor_fields_below zero q r h =
    let none_left : r ≡ 0 = omega arith in rw (none_left, xor-zero) (omega arith)
xor_fields_below (suc k) q r h =
    let twice : q * 2 ^ suc k ≡ 2 * (q * 2 ^ k) =
      omega (arith, ap (λ (t : ℕ). q * t) (pow-suc 2 k)) in
    ground (
      arith,
      twice,
      pow-suc 2 k,
      xor_digit (q * 2 ^ suc k) r,
      xor_fields_below k q (r / 2) (omega (arith, pow-suc 2 k)),
    )

-- A byte and what stands above it do not overlap.
pub xor_byte : (q r : ℕ) → r < 256 → bit_xor (q * 256) r ≡ q * 256 + r
xor_byte q r h = xor_fields_below 8 q r h

and-zero_below : (n a : ℕ) → a ≤ n → bit_and a 0 ≡ 0
and-zero_below n zero h = refl
and-zero_below zero (suc a) h = absurd (omega arith)
and-zero_below (suc n) (suc a) h =
    omega (arith, and_digit (suc a) 0, and-zero_below n (suc a / 2) (omega arith))

abbrev halve : ℕ → ℕ → ℕ
halve zero x = x
halve (suc k) x = halve k (x / 2)

halve-xor : (k a b : ℕ) → halve k (bit_xor a b) ≡ bit_xor (halve k a) (halve k b)
halve-xor zero a b = refl
halve-xor (suc k) a b = ap (halve k) (half-xor a b) ∙ halve-xor k (a / 2) (b / 2)

halve_byte : (x : ℕ) → halve 8 x ≡ x / 256
halve_byte x = omega arith

pub xor-shift : (a b : ℕ) → bit_xor a b / 256 ≡ bit_xor (a / 256) (b / 256)
xor-shift a b =
    sym (halve_byte (bit_xor a b)) ∙ halve-xor 8 a b ∙ ap₂ bit_xor (halve_byte a) (halve_byte b)

and_nibble : (a : ℕ) → bit_and a 15 ≡ a % 16
and_nibble a = omega (
  arith,
  and_digit a 15,
  and_digit (a / 2) 7,
  and_digit (a / 2 / 2) 3,
  and_digit (a / 2 / 2 / 2) 1,
  and-zero_below (a / 2 / 2 / 2 / 2) (a / 2 / 2 / 2 / 2) (le_refl _),
)

-- The mask 0xff keeps the low byte.
pub and_byte : (a : ℕ) → bit_and a 0xff ≡ a % 256
and_byte a = omega (
  arith,
  and_digit a 255,
  and_digit (a / 2) 127,
  and_digit (a / 2 / 2) 63,
  and_digit (a / 2 / 2 / 2) 31,
  and_nibble (a / 2 / 2 / 2 / 2),
)
