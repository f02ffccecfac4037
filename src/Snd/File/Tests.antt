-- ===== src/Snd/File/Tests.antt =====
-- A page of three bytes and its answers
use lidas.Base.{◌+◌, ◌≤◌, ◌≡◌, refl, true, some, [], ◌∷◌, arith, length, success}
use lidas.Text.Literals.{codes}
use lidas.Text.Numerals.Decimal.{decimal}
use lidas.Memory.Pool.{Page}
use lidas.Snd.File.{error_room, error_post, FileAnswers}
use lidas.Snd.File.Served.{error_post-fits}

decimal_test : decimal 4096 ≡ codes "4096"
unfolding decimal
decimal_test = refl

error_post_test :
    error_post 404
    ≡ codes
        "HTTP/1.1 404 NOTFOUND\r\nServer: LIDA/1.0\r\nContent-Type: text/html\r\nContent-Length: 112\r\n\r\n"
unfolding error_post decimal
error_post_test = refl

error_post-fits_test : length (error_post 503) + 1 ≤ error_room
error_post-fits_test = error_post-fits 503 (omega arith)

abbrev page : Page
page = record { at = 8192; start = 8232; end_ = 12288; extra = []; words = λ a. 0 }

abbrev allocated : Page
allocated = record { at = 8192; start = 8262; end_ = 12288; extra = []; words = λ a. 0 }

abbrev answers : FileAnswers
answers = record {
  bytes = some (1 ∷ 2 ∷ 3 ∷ []);
  stat = some (3, codes "then");
  date = codes "now";
  writable = true;
  header = success;
  buf = 4096;
  sends = [];
}
