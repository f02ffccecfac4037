-- ===== src/Log/Texts.antt =====
-- The texts of src/log.c and the room that it asks for them
use lidas.Base.{ℕ, ◌+◌, ◌≡◌, List, arith, length, length-append}
use lidas.Log.{client_text, client_room, warning_text, warning_room, ported_text, ported_room}

-- With the NUL that ends it, each text of src/log.c is longer than the room asked for it: by one
-- byte in `buf_log_init`, by one in `err_log` and by 18 in `proxy_post_log`.
pub texts-overrun :
    (a b : List ℕ)
    → (length (client_text a b) + 1 ≡ client_room a b + 1)
      × (length (warning_text a) + 1 ≡ warning_room a + 1)
      × (length (ported_text a b) + 1 ≡ ported_room a b + 18)
unfolding client_text client_room warning_text warning_room ported_text ported_room
texts-overrun a b = (
  simp length-append (omega arith),
  simp length-append (omega arith),
  simp length-append (omega arith),
)
