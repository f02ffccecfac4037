-- ===== src/Snd/Pages.antt =====
-- What `stream_to_socket` of src/snd.c sends of a file
use lidas.Base.{
  ℕ, zero, suc, ◌+◌, ◌-◌, ◌/◌, ◌≤◌, ◌<◌, ◌≡◌, refl, ap₂, ◌∙◌, inl, inr, List, [], ◌∷◌, ◌++◌, arith,
  leb, leb→le, Bool-cases, length, take, drop, length-append, Returns, returns, Returns-bind,
}
use lidas.Snd.{page_siz, fread_page, stream_to_socket}

-- the bytes that calls of `post_loop` send
abbrev pub sent : List (List ℕ × ℕ) → List ℕ
sent [] = []
sent (post ∷ posts) = take post.1 post.0 ++ sent posts

length-drop : (n : ℕ) (xs : List ℕ) → length (drop n xs) ≡ length xs - n
length-drop zero xs = omega arith
length-drop (suc n) [] = omega arith
length-drop (suc n) (x ∷ xs) = length-drop n xs ∙ omega arith

one_byte : (n : ℕ) (xs : List ℕ) → 0 < n → n ≤ length xs → length (take 1 (take n xs)) ≡ 1
one_byte zero xs a b = absurd (omega (arith, a))
one_byte (suc n) [] a b = absurd (omega (arith, b))
one_byte (suc n) (x ∷ xs) a b = refl

-- `stream_to_socket` sends one byte for each whole page of the file and nothing of what follows the
-- last whole page: `length / 4096` bytes in all. One round more than there are pages is enough.
pub stream_to_socket-loses :
    (rounds : ℕ) (file : List ℕ)
    → length file / page_siz < rounds
    → Returns (λ posts. length (sent posts) ≡ length file / page_siz) (stream_to_socket rounds file)
unfolding fread_page stream_to_socket
stream_to_socket-loses zero file h = absurd (omega (arith, h))
stream_to_socket-loses (suc n) file h = elim (Bool-cases (leb page_siz (length file))) [
  | inl whole ↦
      let long : page_siz ≤ length file = leb→le _ _ whole in
      let rest = length-drop page_siz file in
      let shorter : (length file - page_siz) / page_siz < n = omega (arith, h, long) in
      let later = stream_to_socket-loses n (drop page_siz file) (rw rest shorter) in
      rw whole (
        Returns-bind later (λ posts e. returns (
          length-append (take 1 (take page_siz file)) (sent posts)
          ∙ ap₂ (◌+◌) (one_byte page_siz file (omega arith) long) (rw rest at e)
          ∙ omega (arith, long))))
  | inr short ↦
      let small : length file < page_siz = ground (arith, short) in
      rw short (returns (omega (arith, small)))
]
