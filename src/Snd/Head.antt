-- ===== src/Snd/Head.antt =====
-- The response head that `post_header` of src/snd.c formats
use lidas.Base.{◌+◌, ◌≡◌, refl, true, arith, length, length-append, leb, le→leb, fault}
use lidas.Snd.{Response, header_text, header_len, post_header}

-- The head has 10 bytes more than the array for it.
length-header_text : (r : Response) → length (header_text r) ≡ header_len r + 10
unfolding header_text header_len
length-header_text r = simp length-append (omega arith)

-- So `sprintf` writes behind `header` for every response.
pub post_header-overflows : (r : Response) → post_header r ≡ fault
unfolding post_header
post_header-overflows r =
    let long : leb (header_len r) (length (header_text r)) ≡ true =
      le→leb _ _ (omega (arith, length-header_text r)) in
    rw long refl
