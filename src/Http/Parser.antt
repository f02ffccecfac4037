-- ===== src/Http/Parser.antt =====
-- `http_parser`, `http_response_parser`, `method_test` and `protocal_test` of src/http_parser.c, and
-- `lida_breakline` of src/main.c. A text is what the buffer holds from a pointer to the next NUL.
-- The tokens lie apart in the buffer, so each is a text of its own, and `toklist` is the text from
-- the saved pointer on. The request and its table come from the connection's pool: `list` is what
-- the pool's memory held. Passing NULL to a string function is a fault, and so is a read behind the
-- NUL of the buffer.
pub mod Lines
pub mod Format
pub mod Termination
pub mod Tests
use lidas.Base.{
  ◌>>=◌, ℕ, zero, suc, ◌/◌, Bool, true, false, ◌||◌, Option, none, some, List, [], ◌∷◌, ◌==◌,
  if◌then◌else◌, length, drop, Run, ok, fault, out_of_fuel, or_fault,
}
use lidas.Text.Compare.{str_eq}
use lidas.Text.Tokens.{strtok}
use lidas.Text.Literals.{codes}
use lidas.Text.Numerals.{atoi}
use lidas.Http.Crc.{crc32_port}
use lidas.Http.Hash.{Table, Stale, hash_set}

-- `struct http_request_t`
pub record Request : Type 0 where
  pub method : List ℕ
  pub url : Option (List ℕ)
  pub protocal : List ℕ
  pub list : Table (List ℕ)
  pub list_siz : ℕ
  pub offset : ℕ
  pub request_body : List ℕ

-- `method_lst`
abbrev method_lst : List (List ℕ)
method_lst =
    codes "GET"
    ∷ codes "HEAD"
    ∷ codes "POST"
    ∷ codes "PUT"
    ∷ codes "DELETE"
    ∷ codes "TRACE"
    ∷ codes "CONNECT"
    ∷ codes "OPTIONS"
    ∷ []

test_from : List (List ℕ) → List ℕ → Bool
test_from [] m = false
test_from (x ∷ xs) m = str_eq m x || test_from xs m

-- `method_test` and `protocal_test`: TRUE or -1
unfoldable pub method_test : List ℕ → Bool
unfolding test_from
method_test m = test_from method_lst m

unfoldable pub protocal_test : List ℕ → Bool
protocal_test p =
    if str_eq p (codes "HTTP/1.1")
    then true
    else if str_eq p (codes "HTTP/1.0")
    then true
    else false

-- `lida_breakline`: the bytes that the text's place in memory holds afterwards
pub lida_breakline : List ℕ → List ℕ
lida_breakline [] = []
lida_breakline (c ∷ p) = (if (c == 13) || (c == 10) then 0 else c) ∷ lida_breakline p

-- the text at a pointer: the bytes up to the first NUL
unfoldable pub c_string : List ℕ → List ℕ
c_string [] = []
c_string (c ∷ p) = let rest = c_string p in if c == 0 then [] else c ∷ rest

-- `while (*content_cap == ' ') content_cap++`
pub skip_blanks : List ℕ → List ℕ
skip_blanks [] = []
skip_blanks (c ∷ p) = if c == 32 then skip_blanks p else c ∷ p

-- `*(toklist + 1)`
pub peek : List ℕ → Run ℕ
peek [] = fault
peek (c ∷ []) = ok 0
peek (c ∷ d ∷ s) = ok d

-- the loop of `http_parser` over the lines of the head, on fuel; `none` is its `return NULL`
pub header_loop :
    (fuel : ℕ) (left : Stale (List ℕ))
    → (toklist : List ℕ) → Table (List ℕ)
    → Run (Option (Table (List ℕ) × List ℕ))
header_loop zero left s list = out_of_fuel
header_loop (suc fuel) left s list = do
  stop ← peek s
  let line : Run (Option (Table (List ℕ) × List ℕ)) = do
    let (capture, s₁) = strtok (codes ": ") s
    let (content_cap, s₂) = strtok (codes "\n") s₁
    content ← or_fault content_cap
    key ← or_fault capture
    list' ← hash_set crc32_port key (c_string (lida_breakline (skip_blanks content))) list 29 left
    more ← peek s₂
    let next = header_loop fuel left s₂ list'
    if more == 0 then ok none else next
  if stop == 10 then ok (some (list, s)) else line

pub finish :
    (method : List ℕ) (url : Option (List ℕ)) (protocal : List ℕ)
    → Option (Table (List ℕ) × List ℕ)
    → Option Request
finish method url protocal none = none
finish method url protocal (some (list, toklist)) = some (record {
  method = method;
  url = url;
  protocal = protocal;
  list = list;
  list_siz = 29;
  offset = length (drop 2 toklist);
  request_body = drop 2 toklist;
})

-- `http_parser` on a text without a NUL; the saved pointer that it tests after the second token is
-- never NULL
pub parse_text :
    (left : Stale (List ℕ)) → (list : Table (List ℕ)) → (h : List ℕ) → Run (Option Request)
parse_text left list h = do
  let (m, s₁) = strtok (codes " ") h
  method ← or_fault m
  let (url, s₂) = strtok (codes " ") s₁
  let (p, s₃) = strtok (codes "\r\n") s₂
  let rest : Run (Option Request) = do
    protocal ← or_fault p
    let body : Run (Option Request) = do
      r ← header_loop (length h) left s₃ list
      ok (finish method url protocal r)
    if protocal_test protocal then body else ok none
  if method_test method then rest else ok none

-- `http_parser` of the bytes at a pointer: `strtok_r` and `strlen` end at the first NUL
pub http_parser :
    (left : Stale (List ℕ)) → (list : Table (List ℕ)) → (h : List ℕ) → Run (Option Request)
unfolding parse_text
http_parser left list h = parse_text left list (c_string h)

-- `http_response_parser`: the status, as the pattern of an `int`
unfoldable pub http_response_parser : List ℕ → Run ℕ
http_response_parser ptr = do
  let (version, l) = strtok (codes " ") ptr
  let (status, l') = strtok (codes " ") l
  str ← or_fault status
  ok (atoi str)
