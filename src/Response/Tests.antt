-- ===== src/Response/Tests.antt =====
-- A header of 124 bytes that `write` takes in two pieces
use lidas.Base.{◌+◌, ◌++◌, sym, ◌≡◌, refl, [], ◌∷◌, arith, length, ok, success}
use lidas.Text.Literals.{codes}
use lidas.Text.Numerals.Decimal.{decimal}
use lidas.Snd.{wrote, as_size}
use lidas.Snd.Loop.{calls_from}
use lidas.Response.{head_loop, head_text, reponse_head}
use lidas.Response.Header.{taken_all, reponse_head-unset}

text_length : length (head_text 5 (codes "text/html") (codes "today")) ≡ 124
unfolding head_text decimal
text_length = refl

reponse_head-unset_test :
    reponse_head 5 (codes "text/html") (codes "today") (taken_all (100 ∷ 24 ∷ [])) 7000
    ≡ ok (
      success,
      calls_from 7000 (length (head_text 5 (codes "text/html") (codes "today"))) (100 ∷ 24 ∷ [])
          ++ ((7000 + length (head_text 5 (codes "text/html") (codes "today")), 0) ∷ []),
    )
reponse_head-unset_test =
    reponse_head-unset 5 (codes "text/html") (codes "today") (100 ∷ 24 ∷ []) 7000 (ground arith)
      (sym text_length) (rw text_length (ground arith)) (rw text_length (ground arith))

-- Two pieces, the call that takes none, and the places that they are read from
reponse_head_test :
    reponse_head 5 (codes "text/html") (codes "today") (wrote 100 ∷ wrote 24 ∷ wrote 0 ∷ []) 7000
    ≡ ok (success, (7000, 124) ∷ (7100, 24) ∷ (7124, 0) ∷ [])
unfolding reponse_head head_loop head_text decimal as_size
reponse_head_test = refl
