-- ===== src/Http/Parser/Tests.antt =====
-- The parser on small requests, and its theorems at inputs that meet their hypotheses.
use lidas.Base.{
  Ends, ℕ, ◌≡◌, refl, Option, none, some, List, [], ◌∷◌, arith, replicate, Run, ok, fault, ◌>>=◌,
}
use lidas.Http.Parser.Termination.{http_parser-Ends}
use lidas.Text.Literals.{codes}
use lidas.Text.Tokens.{strtok}
use lidas.Text.Compare.{str_eq}
use lidas.Text.Numerals.{atoi}
use lidas.Http.Crc.{crc32_tab, crc32_port}
use lidas.Http.Hash.{Table, null, hash_set, hash_search}
use lidas.Http.Hash.Fill.{fill, blank-IsClean}
use lidas.Http.Parser.{
  Request, method_test, protocal_test, lida_breakline, c_string, skip_blanks, peek, header_loop,
  finish, parse_text, http_parser, http_response_parser,
}
use lidas.Http.Parser.Lines.{Header, IsHeader}
use lidas.Http.Parser.Format.{Line, IsLine, NoNul, print_request, parsed, http_parser-print}

abbrev blank_table : Table (List ℕ)
blank_table = replicate 29 none

abbrev get_root : Line
get_root = record { method = (71, codes "ET"); url = (47, []); protocal = (72, codes "TTP/1.1") }

abbrev host : Header
host = record { initial = 72; name = codes "ost"; value = codes "lida" }

abbrev length_header : Header
length_header = record { initial = 76; name = codes "en"; value = codes "2" }

written :
    print_request get_root (host ∷ length_header ∷ []) (codes "hi")
    ≡ codes "GET / HTTP/1.1\r\nHost: lida\r\nLen: 2\r\n\r\nhi"
unfolding print_request
written = refl

get_root-IsLine : IsLine get_root
unfolding method_test protocal_test str_eq
get_root-IsLine = record {
  known = refl;
  version = refl;
  method = ground arith;
  url = ground arith;
  protocal = ground arith;
}

host-IsHeader : IsHeader host
host-IsHeader = record {
  name = ground arith;
  one_line = ground arith;
  value = ground arith;
  unspaced = refl;
}

-- the bytes that a second header is found under, and those of the first
abbrev table_of : Run (Option Request) → Table (List ℕ)
table_of (ok (some r)) = r.list
table_of r = []

lookups : Run (Option (List ℕ) × Option (List ℕ) × Option (List ℕ))
unfolding http_parser parse_text header_loop finish skip_blanks peek strtok method_test
    protocal_test lida_breakline c_string hash_set hash_search crc32_port crc32_tab str_eq
lookups = do
  r ← http_parser null blank_table (codes "GET / HTTP/1.1\r\nHost: lida\r\nLen: 2\r\n\r\nhi")
  let t = table_of (ok r)
  a ← hash_search crc32_port (codes "Len") t 29
  b ← hash_search crc32_port (codes "Host") t 29
  c ← hash_search crc32_port (codes "\nHost") t 29
  ok (a, b, c)

lookups_found : lookups ≡ ok (some (codes "2"), none, some (codes "lida"))
unfolding lookups
lookups_found = refl

-- without a header the line feed of the first line is taken for a name
no_header : http_parser null blank_table (codes "GET / HTTP/1.1\r\n\r\n") ≡ fault
unfolding lookups
no_header = refl

status : http_response_parser (codes "HTTP/1.1 502 Bad Gateway\r\n\r\n") ≡ ok 502
unfolding http_response_parser strtok atoi
status = refl

get_root-NoNul : NoNul (print_request get_root (host ∷ []) (codes "hi"))
unfolding print_request c_string
get_root-NoNul = refl

http_parser-print_example :
    (u : Table (List ℕ)) × (fill 29 blank_table ((10 ∷ codes "Host", codes "lida") ∷ []) ≡ ok u)
    × (http_parser null blank_table (print_request get_root (host ∷ []) (codes "hi"))
        ≡ ok (some (parsed get_root (codes "hi") u)))
http_parser-print_example =
    http_parser-print get_root host [] (codes "hi") blank_table get_root-IsLine (host-IsHeader, tt)
      get_root-NoNul (blank-IsClean 29 (omega arith))

http_parser-Ends_example : Ends (http_parser null blank_table (codes "GET / HTTP/1.1\r\n\r\n"))
http_parser-Ends_example =
    http_parser-Ends blank_table (codes "GET / HTTP/1.1\r\n\r\n") (blank-IsClean 29 (omega arith))
