-- ===== src/Http/Parser/Format.antt =====
-- What `http_parser` makes of a request that is written the way clients write it.
use lidas.Base.{
  ℕ, ◌+◌, ◌≤◌, ◌<◌, ◌≡◌, refl, sym, ap, ◌∙◌, true, Option, some, List, [], ◌∷◌, ◌++◌, arith, length,
  length-append, Run, ok, ◌>>=◌, bind-eq, bind_assoc, Returns-inv,
}
use lidas.Text.Tokens.{Free, strtok-token}
use lidas.Text.Literals.{codes}
use lidas.Http.Hash.{Table, null}
use lidas.Http.Hash.Fill.{IsClean, fill, fill_lem}
use lidas.Http.Parser.Lines.{Header, key, print_headers, AreHeaders, pairs, ending, first-fill}
use lidas.Http.Parser.{
  Request, method_test, protocal_test, header_loop, finish, parse_text, http_parser, c_string,
}

-- a text of at least one byte
abbrev Word : Type 0
Word = ℕ × List ℕ

abbrev pub text : Word → List ℕ
text (c, s) = c ∷ s

-- the first line of a request
pub record Line : Type 0 where
  pub method : Word
  pub url : Word
  pub protocal : Word

pub record IsLine (l : Line) : Type 0 where
  pub known : method_test (text l.method) ≡ true
  pub version : protocal_test (text l.protocal) ≡ true
  pub method : Free (codes " ") (text l.method)
  pub url : Free (codes " ") (text l.url)
  pub protocal : Free (codes "\r\n") (text l.protocal)

unfoldable pub print_request : Line → List Header → List ℕ → List ℕ
print_request l hs body =
    text l.method
    ++ (32 ∷ text l.url ++ (32 ∷ text l.protocal ++ (13 ∷ 10 ∷ print_headers hs (ending body))))

-- the request that `http_parser` returns for it, with the table `list`
unfoldable pub parsed : Line → List ℕ → Table (List ℕ) → Request
parsed l body list = record {
  method = text l.method;
  url = some (text l.url);
  protocal = text l.protocal;
  list = list;
  list_siz = 29;
  offset = length body;
  request_body = body;
}

length-print_headers :
    (hs : List Header) (rest : List ℕ) → length hs + length rest ≤ length (print_headers hs rest)
length-print_headers [] rest = omega arith
length-print_headers (h ∷ hs) rest =
    let inner = print_headers hs rest in
    omega (
      arith,
      length-append {0} (key h) (58 ∷ 32 ∷ h.value ++ (13 ∷ 10 ∷ inner)),
      length-append {0} h.value (13 ∷ 10 ∷ inner),
      length-print_headers hs rest,
    )

print_request-long :
    (l : Line) (hs : List Header) (body : List ℕ) → length hs < length (print_request l hs body)
unfolding print_request
print_request-long l hs body =
    let lines = print_headers hs (ending body) in
    let p = text l.protocal in
    let u = text l.url in
    omega (
      arith,
      length-append {0} (text l.method) (32 ∷ u ++ (32 ∷ p ++ (13 ∷ 10 ∷ lines))),
      length-append {0} u (32 ∷ p ++ (13 ∷ 10 ∷ lines)),
      length-append {0} p (13 ∷ 10 ∷ lines),
      length-print_headers hs (ending body),
    )

-- the first line is taken apart, and the loop starts at its line feed
first_line :
    (l : Line) (hs : List Header) (body : List ℕ) (t : Table (List ℕ))
    → IsLine l
    → parse_text null t (print_request l hs body) ≡ (do
      r ←
          header_loop
            (length (print_request l hs body))
            null
            (10 ∷ print_headers hs (ending body))
            t
      ok (finish (text l.method) (some (text l.url)) (text l.protocal) r))
unfolding parse_text print_request
first_line l hs body t is =
    let lines = 10 ∷ print_headers hs (ending body) in
    let p = text l.protocal ++ (13 ∷ lines) in
    let u = text l.url ++ (32 ∷ p) in
    rw (
      strtok-token (codes " ") l.method.0 l.method.1 32 u is.method refl,
      is.known,
      strtok-token (codes " ") l.url.0 l.url.1 32 p is.url refl,
      strtok-token (codes "\r\n") l.protocal.0 l.protocal.1 13 lines is.protocal refl,
      is.version,
    )

finished :
    (l : Line) (body : List ℕ) (u : Table (List ℕ))
    → ◌≡◌ {A = Run (Option Request)}
        (ok (finish (text l.method) (some (text l.url)) (text l.protocal) (some (u, ending body))))
        (ok (some (parsed l body u)))
unfolding finish parsed
finished l body u = refl

parse_text-print :
    (l : Line) (h : Header) (hs : List Header) (body : List ℕ) (t : Table (List ℕ))
    → IsLine l
    → AreHeaders (h ∷ hs)
    → parse_text null t (print_request l (h ∷ hs) body)
      ≡ (do u ← fill 29 t ((10 ∷ key h, h.value) ∷ pairs hs); ok (some (parsed l body u)))
parse_text-print l h hs body t is are =
    let enough = print_request-long l (h ∷ hs) body in
    first_line l (h ∷ hs) body t is
    ∙ ap (λ m. m >>= λ r. ok (finish (text l.method) (some (text l.url)) (text l.protocal) r))
        (first-fill h hs body (length (print_request l (h ∷ hs) body)) t are enough)
    ∙ sym (
        bind_assoc (fill 29 t ((10 ∷ key h, h.value) ∷ pairs hs)) (λ u. ok (some (u, ending body)))
          (λ r. ok (finish (text l.method) (some (text l.url)) (text l.protocal) r)))
    ∙ bind-eq (fill 29 t ((10 ∷ key h, h.value) ∷ pairs hs)) _ _ (λ u. finished l body u)

-- no byte of the text is a NUL
abbrev pub NoNul : List ℕ → Type 0
NoNul s = c_string s ≡ s

-- The parser on a request as clients write it, without a NUL in it: a known method, a target, HTTP/1.0 or
-- HTTP/1.1, at least one header, the empty line, and a body; with a table of 29 buckets in which the
-- `next` of every node is NULL, and new nodes in memory that was zeroed. It returns the method, the
-- target, the version and the body as they stand, and the table that `hash_set` makes of the headers
-- from the first to the last, which succeeds each time; but the first one's name has a line feed in
-- front.
pub http_parser-print :
    (l : Line) (h : Header) (hs : List Header) (body : List ℕ) (t : Table (List ℕ))
    → IsLine l
    → AreHeaders (h ∷ hs)
    → NoNul (print_request l (h ∷ hs) body)
    → IsClean 29 t
    → (u : Table (List ℕ)) × (fill 29 t ((10 ∷ key h, h.value) ∷ pairs hs) ≡ ok u)
      × (http_parser null t (print_request l (h ∷ hs) body) ≡ ok (some (parsed l body u)))
unfolding http_parser
http_parser-print l h hs body t is are plain clean =
    let ps = (10 ∷ key h, h.value) ∷ pairs hs in
    let (u, filled, w) = Returns-inv (fill_lem 29 (omega arith) ps t clean) in
    let run : fill 29 t ps >>= (λ v. ok (some (parsed l body v))) ≡ ok (some (parsed l body u)) =
      ap (λ m. m >>= (λ v. ok (some (parsed l body v)))) filled in
    (u, filled, ap (parse_text null t) plain ∙ (parse_text-print l h hs body t is are ∙ run))
