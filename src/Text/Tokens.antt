-- ===== src/Text/Tokens.antt =====
-- `strtok_r`: the state between two calls is the text from the saved pointer on. The library writes
-- a NUL over the delimiter that ends a token and returns the token's first byte, so the token is the
-- text before that delimiter, and the saved pointer stands behind it. At the end of the text the
-- saved pointer stands on the NUL.
use lidas.Base.{
  ℕ, ◌≤◌, ◌<◌, ◌≡◌, refl, ap, inl, inr, Bool, true, false, ◌||◌, Option, none, some, List, [], ◌∷◌,
  ◌++◌, arith, leb, ◌==◌, if◌then◌else◌, leb→le, Bool-cases, length,
}

-- is the byte one of the delimiters?
abbrev is_in : ℕ → List ℕ → Bool
is_in c [] = false
is_in c (d ∷ ds) = (c == d) || is_in c ds

skip : List ℕ → List ℕ → List ℕ
skip ds [] = []
skip ds (c ∷ s) = if is_in c ds then skip ds s else c ∷ s

-- the text up to the first delimiter, and the text behind it
span : List ℕ → List ℕ → List ℕ × List ℕ
span ds [] = ([], [])
span ds (c ∷ s) = let (token, rest) = span ds s in if is_in c ds then ([], s) else (c ∷ token, rest)

token_of : List ℕ → List ℕ → Option (List ℕ) × List ℕ
token_of ds [] = (none, [])
token_of ds (c ∷ s) = let (token, rest) = span ds (c ∷ s) in (some token, rest)

unfoldable pub strtok : List ℕ → List ℕ → Option (List ℕ) × List ℕ
unfolding skip span token_of
strtok ds s = token_of ds (skip ds s)

-- no byte of the text is one of the delimiters
abbrev pub Free : List ℕ → List ℕ → Type 0
Free ds [] = Unit
Free ds (c ∷ s) = (is_in c ds ≡ false) × Free ds s

span-append :
    (ds s : List ℕ) (d : ℕ) (rest : List ℕ)
    → Free ds s
    → is_in d ds ≡ true
    → span ds (s ++ (d ∷ rest)) ≡ (s, rest)
unfolding span
span-append ds [] d rest f h = rw h
span-append ds (c ∷ s) d rest f h = rw (f.0, span-append ds s d rest f.1 h)

skip-stop : (ds : List ℕ) (c : ℕ) (s : List ℕ) → is_in c ds ≡ false → skip ds (c ∷ s) ≡ c ∷ s
unfolding skip
skip-stop ds c s h = rw h

-- A text that starts with a token and a delimiter.
pub strtok-token :
    (ds : List ℕ) (c : ℕ) (s : List ℕ) (d : ℕ) (rest : List ℕ)
    → Free ds (c ∷ s)
    → is_in d ds ≡ true
    → strtok ds (c ∷ s ++ (d ∷ rest)) ≡ (some (c ∷ s), rest)
unfolding strtok
strtok-token ds c s d rest f h =
    rw (skip-stop ds c (s ++ (d ∷ rest)) f.0)
      (ap (λ r. (some r.0, r.1)) (span-append ds (c ∷ s) d rest f h))

-- A delimiter in front is skipped.
strtok-skip :
    (ds : List ℕ) (d : ℕ) (s : List ℕ) → is_in d ds ≡ true → strtok ds (d ∷ s) ≡ strtok ds s
unfolding strtok
strtok-skip ds d s h = rw h

length-skip : (ds s : List ℕ) → length (skip ds s) ≤ length s
unfolding skip
length-skip ds [] = omega arith
length-skip ds (c ∷ s) = ground (arith, length-skip ds s)

length-span : (ds s : List ℕ) → length (span ds s).1 ≤ length s
unfolding span
length-span ds [] = omega arith
length-span ds (c ∷ s) = ground (arith, length-span ds s)

length-token_of : (ds s : List ℕ) → 0 < length s → length (token_of ds s).1 < length s
unfolding token_of span
length-token_of ds [] h = absurd (omega arith)
length-token_of ds (c ∷ s) h = ground (arith, length-span ds s)

token_of-nil : (ds s : List ℕ) → length s < 1 → length (token_of ds s).1 ≡ 0
unfolding token_of
token_of-nil ds [] h = refl
token_of-nil ds (c ∷ s) h = absurd (omega arith)

-- The saved pointer only moves on; from a text that is not empty it moves.
pub length-strtok :
    (ds s : List ℕ)
    → (length (strtok ds s).1 ≤ length s) × (0 < length s → length (strtok ds s).1 < length s)
unfolding strtok
length-strtok ds [] = (omega arith, λ h. absurd (omega arith))
length-strtok ds (c ∷ s) = (ground (arith, shorter), λ h. shorter)
  where
    shorter : length (token_of ds (skip ds (c ∷ s))).1 < length (c ∷ s)
    shorter = elim (Bool-cases (leb 1 (length (skip ds (c ∷ s))))) [
      | inl e ↦
          omega (arith, length-token_of ds (skip ds (c ∷ s)) (leb→le _ _ e), length-skip ds (c ∷ s))
      | inr e ↦ ground (arith, token_of-nil ds (skip ds (c ∷ s)))
    ]

pub strtok-nil : (ds : List ℕ) → strtok ds [] ≡ (none, [])
unfolding strtok
strtok-nil ds = refl
