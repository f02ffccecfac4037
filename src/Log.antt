-- ===== src/Log.antt =====
-- src/log.c: the log that a connection keeps in its pool until it ends. The date and the address are
-- texts that the system gives. What the calls on the log file return is an argument.
pub mod Texts
pub mod Written
mod Tests
use lidas.Base.{
  ℕ, ◌+◌, Option, none, some, List, [], ◌∷◌, ◌++◌, ◌==◌, length, Run, ok, ◌>>=◌, ◌>>◌, fault,
  Status, success, failure,
}
use lidas.Text.Literals.{codes}
use lidas.Memory.Pool.{Page, mem_pool_alloc}

-- `struct buf_log_h`: its `content` and those of the nodes from `head` up to `tail`, which is free
-- for the next entry
pub record BufLog : Type 0 where
  pub content : List ℕ
  pub entries : List (List ℕ)

abbrev sizeof_log : ℕ
sizeof_log = 24

abbrev sizeof_node : ℕ
sizeof_node = 16

abbrev rule : List ℕ
rule =
    codes "======================================================================================\n"

-- what `sprintf` writes for `content` in `buf_log_init`, less the NUL
pub client_text : (time addr : List ℕ) → List ℕ
client_text time addr = rule ++ (codes "Client:" ++ (addr ++ (codes "[" ++ (time ++ codes "]\n"))))

-- the bytes that `buf_log_init` asks for
pub client_room : (time addr : List ℕ) → ℕ
client_room time addr = length time + length addr + length rule + 10

-- `buf_log_init`, on the pool of the connection
pub buf_log_init : (time addr : List ℕ) → List Page → Run (BufLog × List Page)
unfolding client_text client_room
buf_log_init time addr pool = do
  (content, pool1) ← mem_pool_alloc 0 (client_room time addr) pool
  (h, pool2) ← mem_pool_alloc 0 sizeof_log pool1
  (head, pool3) ← mem_pool_alloc 0 sizeof_node pool2
  ok (record { content = client_text time addr; entries = [] }, pool3)

pub warning_text : List ℕ → List ℕ
warning_text str = codes "Waring: " ++ (str ++ codes "\n")

pub warning_room : List ℕ → ℕ
warning_room str = length str + 9

-- a new entry, for which `room` bytes are asked
abbrev add_entry : (room : ℕ) (x : List ℕ) → BufLog → List Page → Run (BufLog × List Page)
add_entry room x h pool = do
  (a, pool1) ← mem_pool_alloc 0 room pool
  (b, pool2) ← mem_pool_alloc 0 sizeof_log pool1
  ok (record h { entries = h.entries ++ (x ∷ []) }, pool2)

-- `err_log` of a connection with the log given, which may be NULL
pub err_log : (str : List ℕ) → Option BufLog → List Page → Run (Option BufLog × List Page)
unfolding warning_text warning_room
err_log str none pool = ok (none, pool)
err_log str (some h) pool = do
  (h', pool') ← add_entry (warning_room str) (warning_text str) h pool
  ok (some h', pool')

pub ported_text : (url ip : List ℕ) → List ℕ
ported_text url ip = url ++ (codes " has been ported to proxy " ++ (ip ++ codes "\n"))

pub ported_room : (url ip : List ℕ) → ℕ
ported_room url ip = length url + length ip + 10

-- `proxy_post_log`
pub proxy_post_log : (url ip : List ℕ) → Option BufLog → List Page → Run (Option BufLog × List Page)
unfolding ported_text ported_room
proxy_post_log url ip none pool = fault
proxy_post_log url ip (some h) pool = do
  (h', pool') ← add_entry (ported_room url ip) (ported_text url ip) h pool
  ok (some h', pool')

-- a call on the log file
pub data LogCall : Type 0 where
  lock : LogCall
  unlock : LogCall
  write : List ℕ → LogCall

abbrev pub farewell : List ℕ
farewell = codes "DISCONNECTED==========="

-- `buf_log_destroy` from its loop on; the list says of each `write` whether it succeeds, and the
-- rest of them fail. The last call of `write` hands over two bytes more than the text has.
unfoldable pub write_entries : List Status → List (List ℕ) → List LogCall
write_entries [] [] = write farewell ∷ unlock ∷ []
write_entries (r ∷ rs) [] = write farewell ∷ unlock ∷ []
write_entries [] (e ∷ es) = write e ∷ []
write_entries (success ∷ rs) (e ∷ es) = write e ∷ write_entries rs es
write_entries (failure ∷ rs) (e ∷ es) = write e ∷ []

-- `buf_log_destroy`
unfoldable pub buf_log_destroy :
    (locked : Status) → List Status → Option BufLog → Run (List LogCall)
unfolding write_entries
buf_log_destroy failure results h = ok (lock ∷ [])
buf_log_destroy success results none = fault
buf_log_destroy success [] (some h) = ok (lock ∷ write h.content ∷ [])
buf_log_destroy success (failure ∷ rs) (some h) = ok (lock ∷ write h.content ∷ [])
buf_log_destroy success (success ∷ rs) (some h) =
    ok (lock ∷ write h.content ∷ write_entries rs h.entries)
