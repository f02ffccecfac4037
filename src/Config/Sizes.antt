-- ===== src/Config/Sizes.antt =====
-- The times of src/config.c
use lidas.Base.{
  ℕ, ◌+◌, ◌<◌, ◌≡◌, refl, true, false, List, [], ◌∷◌, ◌++◌, arith, ◌==◌, ==_iff, ok, holds_below,
  holds_below-at,
}
use lidas.Text.Numerals.{atol}
use lidas.Config.{last_byte, xml_get_time}

last_byte-append : (s : List ℕ) (c : ℕ) → last_byte (s ++ (c ∷ [])) ≡ ok c
unfolding last_byte
last_byte-append [] c = refl
last_byte-append (a ∷ []) c = refl
last_byte-append (a ∷ b ∷ s) c = last_byte-append (b ∷ s) c

atol-digits : holds_below (λ d. atol ((48 + d) ∷ []) == d) 10 ≡ true
unfolding atol holds_below
atol-digits = refl

atol-digit : (d : ℕ) → d < 10 → atol ((48 + d) ∷ []) ≡ d
atol-digit d h = (==_iff _ _).0 (holds_below-at (λ k. atol ((48 + k) ∷ []) == k) 10 d atol-digits h)

atol-unit : (atol (109 ∷ []) ≡ 0) × (atol (104 ∷ []) ≡ 0)
unfolding atol
atol-unit = (refl, refl)

-- `xml_get_time` reads nothing but the last byte of the text: a number of minutes or of hours is
-- taken for 0, and a number of seconds for its last digit.
pub xml_get_time-last :
    (s : List ℕ) (d : ℕ)
    → (xml_get_time (s ++ (109 ∷ [])) ≡ ok 0)
      × (xml_get_time (s ++ (104 ∷ [])) ≡ ok 0)
      × (d < 10 → xml_get_time (s ++ ((48 + d) ∷ [])) ≡ ok d)
unfolding xml_get_time
xml_get_time-last s d = (
  rw (last_byte-append s 109, atol-unit.0) refl,
  rw (last_byte-append s 104, atol-unit.1) refl,
  (λ h.
      let minutes : (48 + d == 109) ≡ false = ground (arith, h) in
      let hours : (48 + d == 104) ≡ false = ground (arith, h) in
      rw (last_byte-append s (48 + d), minutes, hours, atol-digit d h) refl),
)
