-- ===== src/Response.antt =====
-- src/response.c: the header of an answer from the cache. `ptr`, from which the header is written, is
-- never set: its value is an argument. The length is one below 2 ^ 31, as `%d` prints it.
pub mod Header
mod Tests
use lidas.Base.{
  ◌>>=◌, ◌>>◌, ℕ, ◌+◌, ◌-◌, ◌%◌, Bool, Option, List, [], ◌∷◌, ◌++◌, ltb, ◌==◌, if◌then◌else◌,
  length, Run, ok, fault, out_of_fuel, Status, success,
}
use lidas.Text.Literals.{codes}
use lidas.Text.Numerals.Decimal.{decimal}
use lidas.Http.Crc.{crc32_port}
use lidas.Http.Hash.{Table, hash_search}
use lidas.Snd.{Written, word, as_size, crlf}

-- the white space that a continued line of the format begins with
abbrev indent : List ℕ
indent = 9 ∷ 9 ∷ codes "  "

-- what `sprintf` writes to `buf`
pub head_text : (len : ℕ) (mime date : List ℕ) → List ℕ
head_text len mime date =
    codes "HTTP/1.1 200 OK"
    ++ (crlf
        ++ (codes "                  Server: LIDA/1.1"
            ++ (crlf
                ++ (indent
                    ++ (codes "Date: "
                        ++ (date
                            ++ (crlf
                                ++ (indent
                                    ++ (codes "Content-Length: "
                                        ++ (decimal len
                                            ++ (crlf
                                                ++ (indent
                                                    ++ (codes "Content-type: "
                                                        ++ (mime ++ (crlf ++ crlf)))))))))))))))

-- The loop of `reponse_head`, with what each call of `write` returns, and the value of the function.
-- `size` is a `size_t`, so that it is never below 0. Each call is recorded, as its `ptr` and its
-- `rest`.
pub head_loop : List Written → (ptr rest : ℕ) → Run (Status × List (ℕ × ℕ))
unfolding as_size
head_loop [] ptr rest = out_of_fuel
head_loop (w ∷ ws) ptr rest =
    let size = as_size w in
    let later = head_loop ws ((ptr + size) % word) ((rest + (word - size)) % word) in
    let call : ℕ × ℕ = (ptr, rest) in
    if size == 0 then ok (success, call ∷ []) else (later >>= (λ (r, calls). ok (r, call ∷ calls)))

-- the size of `buf`
abbrev pub buf_room : ℕ
buf_room = 1024

-- `reponse_head`
pub reponse_head :
    (len : ℕ) (mime date : List ℕ) → List Written → (ptr : ℕ) → Run (Status × List (ℕ × ℕ))
unfolding head_loop
reponse_head len mime date ws ptr =
    let rest = length (head_text len mime date) in
    if ltb rest buf_room then head_loop ws ptr rest else fault

-- `get_mime`
get_mime : Table (List ℕ) → Run (Option (List ℕ))
get_mime l = hash_search crc32_port (codes "Content-type") l 29
