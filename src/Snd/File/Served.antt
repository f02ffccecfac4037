-- ===== src/Snd/File/Served.antt =====
-- What `post_file` and `error_post` (src/snd.c) send, branch by branch
use lidas.Base.{
  ℕ, ◌+◌, ◌^◌, ◌≤◌, ◌<◌, Option, none, some, List, [], ◌∷◌, ◌++◌, arith, length, length-append, Run,
  ok, fault,
}
use lidas.Text.Literals.{codes}
use lidas.Text.Numerals.Decimal.{decimal, length-decimal}
use lidas.Memory.Pool.{Page}
use lidas.Snd.File.{error_room, err_before, err_behind, error_post, Post, error, logged}

-- The answer with an error number of at most six digits fits into the array of `error_post`, its NUL
-- included.
pub error_post-fits : (status : ℕ) → status < 10 ^ 6 → length (error_post status) + 1 ≤ error_room
unfolding error_post
error_post-fits status h = omega (
  arith,
  length-append err_before (decimal status ++ err_behind),
  length-append (decimal status) err_behind,
  length-decimal 5 status h,
)

-- what becomes of a request for a file, by what the system says of it
abbrev pub outcome :
    (bytes : Option (List ℕ)) (stat : Option (ℕ × List ℕ)) (pool : List Page)
    → Run (List Post × List Page)
outcome none stat pool = ok (error (error_post 404) ∷ [], pool)
outcome (some file) none pool = ok (logged (codes "stat") ∷ error (error_post 503) ∷ [], pool)
outcome (some file) (some found) pool = fault
