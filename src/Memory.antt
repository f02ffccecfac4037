-- ===== src/Memory.antt =====
-- src/memory.c and src/memory.h: caches of cells of one size, and the pool of each connection.
pub mod Cache
pub mod Pool
