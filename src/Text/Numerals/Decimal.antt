-- ===== src/Text/Numerals/Decimal.antt =====
-- `%d` and `%ld` of `sprintf` for a number that is not negative, and that `atol` and `atoi` read it
-- back.
use lidas.Base.{
  ℕ, zero, suc, ◌+◌, ◌-◌, ◌*◌, ◌/◌, ◌%◌, ◌^◌, ◌≤◌, ◌<◌, ◌≡◌, refl, sym, ap, ◌∙◌, inl, inr, true,
  false, List, [], ◌∷◌, arith, length, leb, ◌==◌, if◌then◌else◌, Bool-cases,
}
use native.Mathlib.Nat.{pow-suc}
use lidas.Text.Numerals.{
  is_space, is_digit, skip_space, digits_value, positive, from_sign, atol, atoi,
}

-- the digits of `n` in front of `rest`, at most `room` of them
decimal_before : (room n : ℕ) (rest : List ℕ) → List ℕ
decimal_before zero n rest = rest
decimal_before (suc room) n rest =
    let last = (48 + n % 10) ∷ rest in
    let more = decimal_before room (n / 10) last in if n / 10 == 0 then last else more

-- twenty digits are enough for 64 bits
unfoldable pub decimal : ℕ → List ℕ
unfolding decimal_before
decimal n = decimal_before 20 n []

digits_value-digit :
    (acc d : ℕ) (s : List ℕ)
    → d < 10
    → digits_value acc ((48 + d) ∷ s) ≡ digits_value (acc * 10 + d) s
unfolding digits_value is_digit
digits_value-digit acc d s h =
    let low : leb 48 (48 + d) ≡ true = ground (arith, h) in
    let high : leb (48 + d) 57 ≡ true = ground (arith, h) in
    let value : acc * 10 + (48 + d - 48) ≡ acc * 10 + d = omega arith in rw (low, high, value) refl

digits_value-last :
    (n : ℕ) (rest : List ℕ) → n < 10 → digits_value 0 ((48 + n % 10) ∷ rest) ≡ digits_value n rest
digits_value-last n rest h =
    let value : 0 * 10 + n % 10 ≡ n = omega arith in
    digits_value-digit 0 (n % 10) rest (omega arith) ∙ ap (λ v. digits_value v rest) value

-- Reading the digits of `n` in front of `rest` leaves `n` as the value so far.
digits_value-decimal :
    (room n : ℕ) (rest : List ℕ)
    → n < 10 ^ suc room
    → digits_value 0 (decimal_before (suc room) n rest) ≡ digits_value n rest
unfolding decimal_before
digits_value-decimal zero n rest h =
    let single : n < 10 = omega (arith, h, pow-suc 10 0) in
    let small : (n / 10 == 0) ≡ true = ground arith in rw small (digits_value-last n rest single)
digits_value-decimal (suc room) n rest h = elim (Bool-cases (n / 10 == 0)) [
  | inl small ↦ rw small (digits_value-last n rest (ground (arith, small)))
  | inr large ↦
      let fewer : n / 10 < 10 ^ suc room = omega (arith, h, pow-suc 10 (suc room)) in
      let value : n / 10 * 10 + n % 10 ≡ n = omega arith in
      let front = digits_value-decimal room (n / 10) ((48 + n % 10) ∷ rest) fewer in
      let step = digits_value-digit (n / 10) (n % 10) rest (omega arith) in
      rw large (front ∙ step ∙ ap (λ v. digits_value v rest) value)
]

-- the text begins with a digit
abbrev Leads : List ℕ → Type 0
Leads s = (d : ℕ) × (rest : List ℕ) × (s ≡ (48 + d) ∷ rest) × (d < 10)

decimal_before-Leads : (room n : ℕ) (rest : List ℕ) → Leads (decimal_before (suc room) n rest)
unfolding decimal_before
decimal_before-Leads zero n rest = elim (Bool-cases (n / 10 == 0)) [
  | inl small ↦ (n % 10, rest, rw small refl, omega arith)
  | inr large ↦ (n % 10, rest, rw large refl, omega arith)
]
decimal_before-Leads (suc room) n rest = elim (Bool-cases (n / 10 == 0)) [
  | inl small ↦ (n % 10, rest, rw small refl, omega arith)
  | inr large ↦
      let (d, s, e, h) = decimal_before-Leads room (n / 10) ((48 + n % 10) ∷ rest) in
      (d, s, rw large e, h)
]

atol-digits :
    (d : ℕ) (s : List ℕ) → d < 10 → atol ((48 + d) ∷ s) ≡ positive (digits_value 0 ((48 + d) ∷ s))
unfolding atol from_sign skip_space
atol-digits d s h =
    let blank : is_space (48 + d) ≡ false = ground (arith, h) in
    let minus : (48 + d == 45) ≡ false = ground (arith, h) in
    let plus : (48 + d == 43) ≡ false = ground (arith, h) in rw (blank, minus, plus) refl

pub atol-decimal : (n : ℕ) → n < 2 ^ 63 → atol (decimal n) ≡ n
unfolding decimal digits_value
atol-decimal n h =
    let (d, s, e, small) = decimal_before-Leads 19 n [] in
    let value : digits_value 0 (decimal_before 20 n []) ≡ n =
      digits_value-decimal 19 n [] (omega (arith, h)) in
    ap atol e
    ∙ atol-digits d s small
    ∙ ap positive (ap (digits_value 0) (sym e) ∙ value)
    ∙ omega (arith, h)

pub atoi-decimal : (n : ℕ) → n < 2 ^ 31 → atoi (decimal n) ≡ n
unfolding atoi
atoi-decimal n h = omega (arith, atol-decimal n (omega (arith, h)))

length-decimal_before :
    (room k n : ℕ) (rest : List ℕ)
    → n < 10 ^ suc k
    → length (decimal_before room n rest) ≤ suc k + length rest
unfolding decimal_before
length-decimal_before zero k n rest h = omega arith
length-decimal_before (suc room) zero n rest h =
    let small : (n / 10 == 0) ≡ true = ground (arith, h, pow-suc 10 0) in rw small (omega arith)
length-decimal_before (suc room) (suc k) n rest h = elim (Bool-cases (n / 10 == 0)) [
  | inl small ↦ rw small (omega arith)
  | inr large ↦
      let fewer : n / 10 < 10 ^ suc k = omega (arith, h, pow-suc 10 (suc k)) in
      rw large (omega (arith, length-decimal_before room k (n / 10) ((48 + n % 10) ∷ rest) fewer))
]

-- A number below 10 ^ (k + 1) has at most k + 1 digits.
pub length-decimal : (k n : ℕ) → n < 10 ^ suc k → length (decimal n) ≤ suc k
unfolding decimal
length-decimal k n h = omega (arith, length-decimal_before 20 k n [] h)
