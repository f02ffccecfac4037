-- ===== src/Snd.antt =====
-- src/snd.c: sending to a socket. `write` and `fread` are calls of the system: what each call of
-- `write` returns is read off a list, and a file is the list of its bytes.
pub mod Loop
pub mod Pages
pub mod Head
pub mod File
mod Tests
use lidas.Base.{
  ℕ, zero, suc, ◌+◌, ◌-◌, ◌/◌, ◌%◌, ◌^◌, List, [], ◌∷◌, ◌++◌, ltb, leb, ◌==◌, if◌then◌else◌, length,
  take, drop, Run, ok, fault, out_of_fuel, ◌>>=◌, ◌>>◌, Status, success, failure, is_success,
}
use lidas.Text.Compare.{str_eq}
use lidas.Text.Literals.{codes}

-- what `write` returns: the bytes it took, or -1
pub data Written : Type 0 where
  wrote : ℕ → Written
  failed : Written

-- the numbers below which a `size_t` and an address stay
abbrev pub word : ℕ
word = 2 ^ 64

-- `cur`, which is a `size_t`
unfoldable pub as_size : Written → ℕ
as_size (wrote n) = n % word
as_size failed = word - 1

abbrev pub eagain : ℕ
eagain = 11

-- The loop of `post_loop`, with what `thread_event_wait` returns, and the value of the function.
-- Each call of `write` is recorded, as its `p` and its `rest`.
pub post_loop : (wait : Status) → List Written → (p rest : ℕ) → Run (Status × List (ℕ × ℕ))
unfolding as_size
post_loop wait [] p rest = out_of_fuel
post_loop wait (w ∷ ws) p rest =
    let cur = as_size w in
    let p' = (p + cur) % word in
    let rest' = (rest + (word - cur)) % word in
    let again = post_loop wait ws p rest in
    let later = post_loop wait ws p' rest' in
    let call : ℕ × ℕ = (p, rest) in
    if cur == 0
    then ok (success, call ∷ [])
    else if ltb cur 0
    then (if cur == eagain
        then (if is_success wait
            then (again >>= (λ (r, calls). ok (r, call ∷ calls)))
            else ok (failure, call ∷ []))
        else ok (failure, call ∷ []))
    else if rest' == 0
    then ok (success, call ∷ [])
    else (later >>= (λ (r, calls). ok (r, call ∷ calls)))

abbrev pub page_siz : ℕ
page_siz = 4096

-- `fread (buf, PAGE_SIZ, 1, fp)` counts elements of `PAGE_SIZ` bytes: it returns 1 if it reads a
-- page, or else 0. With it, the bytes in `buf` and the rest of the file.
pub fread_page : List ℕ → ℕ × List ℕ × List ℕ
fread_page file =
    if leb page_siz (length file)
    then (1, take page_siz file, drop page_siz file)
    else (0, file, [])

-- the loop of `stream_to_socket`: the arguments of the calls of `post_loop` that it makes, as long
-- as none of them fails
pub stream_to_socket : (rounds : ℕ) (file : List ℕ) → Run (List (List ℕ × ℕ))
unfolding fread_page
stream_to_socket zero file = out_of_fuel
stream_to_socket (suc n) file =
    let (buf_siz, buf, rest) = fread_page file in
    let later = stream_to_socket n rest in
    if buf_siz == 0 then ok [] else (later >>= (λ posts. ok ((buf, buf_siz) ∷ posts)))

-- `struct http_response_h`
pub record Response : Type 0 where
  pub version : List ℕ
  pub status : List ℕ
  pub content_type : List ℕ
  pub content_length : List ℕ
  pub date : List ℕ
  pub mtime : List ℕ

abbrev pub indent : List ℕ
indent = 9 ∷ 9 ∷ codes "     "

abbrev pub crlf : List ℕ
crlf = 13 ∷ 10 ∷ []

-- what `sprintf` writes to `header`. The lines of the format that the source continues begin with
-- its indentation.
pub header_text : Response → List ℕ
header_text r =
    r.version
    ++ (codes " "
        ++ (r.status
            ++ (crlf
                ++ (codes "Server: LIDA/1.0"
                    ++ (crlf
                        ++ (codes "Content-Type: "
                            ++ (r.content_type
                                ++ (crlf
                                    ++ (indent
                                        ++ (codes "Content-Length: "
                                            ++ (r.content_length
                                                ++ (crlf
                                                    ++ (indent
                                                        ++ (codes "Date: "
                                                            ++ (r.date
                                                            ++ (crlf
                                                            ++ (indent
                                                            ++ (codes "Last-Modified: "
                                                            ++ (r.mtime
                                                            ++ (crlf
                                                            ++ (indent ++ crlf)))))))))))))))))))))

-- `len` of `post_header`, the size of `header`
pub header_len : Response → ℕ
header_len r =
    length r.version
    + length r.status
    + length r.content_type
    + length r.content_length
    + length r.date
    + length r.mtime
    + 100

-- `post_header`: the bytes that its one `write` hands over. A text that does not fit into `header`, its
-- NUL included, is written behind it.
pub post_header : Response → Run (List ℕ)
unfolding header_text header_len
post_header r =
    if leb (header_len r) (length (header_text r))
    then fault
    else ok (take (header_len r) (header_text r))
