-- ===== src/Snd/File.antt =====
-- `error_post` and `post_file` of src/snd.c: the answers that a client gets
pub mod Served
mod Tests
use lidas.Base.{
  ◌>>=◌, ◌>>◌, ℕ, ◌+◌, Bool, Option, none, some, List, [], ◌∷◌, ◌++◌, if◌then◌else◌, length, Run,
  ok, fault, out_of_fuel, or_fault, Status, success, failure,
}
use lidas.Text.Compare.{str_eq}
use lidas.Text.Literals.{codes}
use lidas.Text.Numerals.Decimal.{decimal}
use lidas.Memory.Pool.{Page, mem_pool_alloc}
use lidas.Snd.{Written, Response, crlf, post_header, post_loop, stream_to_socket}

-- `err_str` of src/listener.c in front of its `%d` and behind it
abbrev pub err_before : List ℕ
err_before = codes "HTTP/1.1 "

abbrev pub err_behind : List ℕ
err_behind =
    codes " NOTFOUND"
    ++ (crlf
        ++ (codes "Server: LIDA/1.0"
            ++ (crlf
                ++ (codes "Content-Type: text/html"
                    ++ (crlf ++ (codes "Content-Length: 112" ++ (crlf ++ crlf)))))))

-- `sizeof str` of `error_post`
abbrev pub error_room : ℕ
error_room = length err_before + 2 + length err_behind + 5

-- `error_post`: the text that its `write` hands over
pub error_post : (status : ℕ) → List ℕ
error_post status = err_before ++ (decimal status ++ err_behind)

-- what `post_file` sends: the text of a header or of an error, or what it gives to `post_loop`;
-- and what it hands to `err_log` (the pages that the log takes are those of the connection's log)
pub data Post : Type 0 where
  head : List ℕ → Post
  error : List ℕ → Post
  page : List ℕ × ℕ → Post
  logged : List ℕ → Post

-- What the system's calls say of the file: its bytes, if it can be opened; its size and the text of
-- its last change; the time; whether `write` takes the header; and for each page what
-- `thread_event_wait` and the calls of `write` return. `content_length` of the response is a pointer
-- that is never set; `writable` says whether the memory that it happens to show can be written. `buf` is
-- the address of the buffer of `stream_to_socket`.
pub record FileAnswers : Type 0 where
  pub bytes : Option (List ℕ)
  pub stat : Option (ℕ × List ℕ)
  pub date : List ℕ
  pub writable : Bool
  pub header : Status
  pub buf : ℕ
  pub sends : List (Status × List Written)

-- the calls of `post_loop` that `stream_to_socket` makes, up to the first one that fails
post_pages : (buf : ℕ) → List (Status × List Written) → List (List ℕ × ℕ) → Run (List Post)
post_pages buf sends [] = ok []
post_pages buf [] (p ∷ ps) = out_of_fuel
post_pages buf ((wait, ws) ∷ sends) (p ∷ ps) = do
  (r, calls) ← post_loop wait ws buf p.1
  later ← elim r [ success ↦ post_pages buf sends ps | failure ↦ ok (error (error_post 503) ∷ []) ]
  ok (page p ∷ later)

-- the rest of `post_file`, once the size is known
pub send_file :
    (rounds : ℕ) (type : Option (List ℕ)) (method : List ℕ)
    → FileAnswers
    → (file : List ℕ) (size : ℕ) (mtime : List ℕ) → List Page
    → Run (List Post × List Page)
unfolding post_pages
send_file rounds type method a file size mtime pool = do
  (date, pool') ← mem_pool_alloc 0 30 pool
  mime ← or_fault type
  text ← post_header (record {
    version = codes "HTTP/1.1";
    status = codes "200 OK";
    content_type = mime;
    content_length = decimal size;
    date = a.date;
    mtime = mtime;
  })
  let body : Run (List Post × List Page) = do
    read ← stream_to_socket rounds file
    posts ← post_pages a.buf a.sends read
    ok (head text ∷ posts, pool')
  elim a.header [
    | failure ↦ ok (head text ∷ [], pool')
    | success ↦ if str_eq method (codes "HEAD") then ok (head text ∷ [], pool') else body
  ]

-- `post_file`
pub post_file :
    (rounds : ℕ) (type : Option (List ℕ)) (method : List ℕ)
    → FileAnswers
    → List Page
    → Run (List Post × List Page)
unfolding send_file
post_file rounds type method a pool = elim a.bytes [
  | none ↦ ok (error (error_post 404) ∷ [], pool)
  | some file ↦ elim a.stat [
    | none ↦ ok (logged (codes "stat") ∷ error (error_post 503) ∷ [], pool)
    | some (size, mtime) ↦
        if a.writable then send_file rounds type method a file size mtime pool else fault
  ]
]
