-- ===== src/Text.antt =====
-- The C library's string functions that the sources call, over strings of bytes without the NUL
-- that ends them; `NULL` is `none`. They stand in for src/http_parser.c, src/read_event.c,
-- src/config.c and src/main.c.
pub mod Compare
pub mod Tokens
pub mod Numerals
pub mod Literals
