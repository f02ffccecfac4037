-- ===== src/Http.antt =====
-- src/http_parser.c, src/http_parser.h and src/crc32.h: the request parser and its hash table.
pub mod Crc
pub mod Hash
pub mod Parser
