-- ===== src/Snd/Tests.antt =====
-- `post_loop`, `stream_to_socket` and `post_header` on small data
use lidas.Base.{
  ℕ, ◌/◌, ◌≡◌, List, [], ◌∷◌, arith, length, replicate, ok, fault, ◌>>=◌, success, failure, Returns,
}
use lidas.Text.Literals.{codes}
use lidas.Snd.{wrote, failed, page_siz, post_loop, stream_to_socket, Response, post_header}
use lidas.Snd.Loop.{NotFailed, post_loop-sends, post_loop-error, post_loop-NotFailed}
use lidas.Snd.Pages.{sent, stream_to_socket-loses}
use lidas.Snd.Head.{post_header-overflows}

post_loop-sends_example :
    post_loop failure (wrote 3 ∷ wrote 2 ∷ []) 100 5 ≡ ok (success, (100, 5) ∷ (103, 2) ∷ [])
post_loop-sends_example =
    post_loop-sends failure 100 3 (2 ∷ []) (omega arith, (omega arith, tt)) (omega arith)

post_loop-error_test :
    post_loop failure (failed ∷ wrote 6 ∷ []) 100 5
    ≡ (post_loop failure (wrote 6 ∷ []) 99 6 >>= (λ (r, calls). ok (r, (100, 5) ∷ calls)))
post_loop-error_test =
    post_loop-error failure (wrote 6 ∷ []) 100 5 (omega arith) (omega arith) (omega arith)

post_loop-NotFailed_test : NotFailed (post_loop failure (failed ∷ wrote 6 ∷ []) 100 5)
post_loop-NotFailed_test = post_loop-NotFailed failure (failed ∷ wrote 6 ∷ []) 100 5

-- a file of a page and one byte
abbrev file : List ℕ
file = replicate 4097 7

stream_to_socket-loses_test :
    Returns (λ posts. length (sent posts) ≡ length file / page_siz) (stream_to_socket 2 file)
stream_to_socket-loses_test = stream_to_socket-loses 2 file (omega arith)

abbrev found : Response
found = record {
  version = codes "HTTP/1.1";
  status = codes "200 OK";
  content_type = codes "text/html";
  content_length = codes "12";
  date = codes "now";
  mtime = codes "then";
}

post_header-overflows_test : post_header found ≡ fault
post_header-overflows_test = post_header-overflows found
