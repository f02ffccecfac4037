-- ===== src/Proxy/Pass.antt =====
-- `proxy_sock_wake`, `post_to_proxy`, `proxy_mute_post` and `proxy_to_client` of src/proxy.c: a
-- request on its way to a backend, and the answer on its way to the client
pub mod Answers
mod Tests
use lidas.Base.{
  ◌>>=◌, ◌>>◌, ℕ, ◌+◌, ◌-◌, ◌%◌, true, false, Option, none, some, List, [], ◌∷◌, ◌++◌, ltb, ◌==◌,
  if◌then◌else◌, length, take, Run, ok, out_of_fuel, or_fault, Status, success, failure,
}
use lidas.Memory.Pool.{Page, pool_siz, mem_pool_add, mem_pool_alloc}
use lidas.Snd.{Written, word, post_loop, stream_to_socket}
use lidas.Snd.File.{error_post}
use lidas.Http.Parser.{c_string, http_response_parser}
use lidas.ReadEvent.{ReadResult, took, failed}
use lidas.ReadEvent.Request.{head_siz, read_head, string_in}
use lidas.Thread.{Killed, Created, ThreadPool, thread_pool_alloc}
use lidas.Thread
use lidas.Proxy.{Node, Group, load_balance, ret_proxy_fd, send_loop, Answer, match_proxy}

-- what the functions of this file ask of the system, of the client's socket and of the log
pub data Action : Type 0 where
  to_client : (text : List ℕ) → Action
  write : (p rest : ℕ) → Action
  logged : Action
  watch : (pfd : ℕ) → Action
  unwatch : (pfd : ℕ) → Action
  thread : Thread.Action → Action

abbrev thread_actions : List Thread.Action → List Action
thread_actions [] = []
thread_actions (a ∷ as') = thread a ∷ thread_actions as'

abbrev pub write_actions : List (ℕ × ℕ) → List Action
write_actions [] = []
write_actions ((p, rest) ∷ calls) = write p rest ∷ write_actions calls

-- what a request needs on its way: the group, the threads, and the pool of the connection
pub record Passing : Type 0 where
  pub group : Group
  pub threads : ThreadPool
  pub pool : List Page

-- `proxy_sock_wake`; `q` is the address of the new event
unfoldable proxy_sock_wake :
    (rounds : ℕ)
    → (kill : ℕ → Killed) → List Created
    → (pfd node q : ℕ) → Passing
    → Run (List Action × Passing)
unfolding ret_proxy_fd
proxy_sock_wake rounds kill results pfd node q s = do
  at ← ret_proxy_fd pfd node s.group.at
  (id, calls, threads) ← thread_pool_alloc rounds kill results q pfd s.threads
  ok (thread_actions calls, record s { group = record s.group { at = at }; threads = threads })

-- One way through `post_to_proxy` from `F_CON` on: what its calls of `write` and
-- `thread_event_wait` return, what `stream_to_socket` happens to return (it has no value of its own),
-- the address of the event for `proxy_sock_wake`, and what `pthread_create` does.
pub record Try : Type 0 where
  pub writes : List Written
  pub wait : Status
  pub streamed : Status
  pub q : ℕ
  pub results : List Created

-- from `F_CON` to `EVENT_ADD`: the socket and the node that took the request
pub find_backend :
    (rounds : ℕ)
    → (kill : ℕ → Killed) → List Try
    → (tmp : ℕ) (f_tmp : Option (List ℕ)) → Passing
    → Run (ℕ × ℕ × List Action × Passing)
unfolding proxy_sock_wake
find_backend rounds kill [] tmp f_tmp s = out_of_fuel
find_backend rounds kill (t ∷ ts) tmp f_tmp s = do
  (pfd, node, group) ← load_balance rounds s.group
  let s₁ : Passing = record s { group = group }
  let again : Run (ℕ × ℕ × List Action × Passing) = do
    (calls, s₂) ← proxy_sock_wake rounds kill t.results pfd node t.q s₁
    (pfd', node', later, s₃) ← find_backend rounds kill ts tmp f_tmp s₂
    ok (pfd', node', calls ++ later, s₃)
  let stream : Run (ℕ × ℕ × List Action × Passing) = do
    file ← or_fault f_tmp
    posts ← stream_to_socket rounds file
    elim t.streamed [ success ↦ ok (pfd, node, [], s₁) | failure ↦ again ]
  (r, sent) ← post_loop t.wait t.writes tmp 8192
  elim r [ success ↦ stream | failure ↦ again ]

-- the size of `struct event_data`
abbrev sizeof_event_data : ℕ
sizeof_event_data = 64

-- `post_to_proxy`. `active` is `q->active` with what the pattern script says; `added` is what
-- `epoll_ctl` returns.
pub post_to_proxy :
    (rounds : ℕ)
    → (active : Option (List (Answer × ℕ))) → (kill : ℕ → Killed) → List Try
    → (added : Status) (tmp : ℕ) (f_tmp : Option (List ℕ)) → Passing
    → Run (List Action × Passing)
unfolding find_backend
post_to_proxy rounds none kill tries added tmp f_tmp s = ok (to_client (error_post 400) ∷ [], s)
post_to_proxy rounds (some patterns) kill tries added tmp f_tmp s = do
  group ← match_proxy patterns
  (pfd, node, calls, s₁) ← find_backend rounds kill tries tmp f_tmp s
  (new, pool) ← mem_pool_alloc 0 sizeof_event_data s₁.pool
  let s₂ : Passing = record s₁ { pool = pool }
  let give_back : Run (List Action × Passing) = do
    at ← ret_proxy_fd pfd node s₂.group.at
    ok (
      calls ++ (logged ∷ logged ∷ to_client (error_post 503) ∷ []),
      record s₂ { group = record s₂.group { at = at } },
    )
  let lost : Run (List Action × Passing) =
      ok (calls ++ (logged ∷ logged ∷ to_client (error_post 503) ∷ []), s₂)
  elim added [
    | success ↦ ok (calls ++ (watch pfd ∷ []), s₂)
    | failure ↦ if pfd == 0 then lost else give_back
  ]

-- The second loop of `proxy_mute_post`, from a buffer at `buf`: what each `read` returns, and what
-- the calls of `write` for it return. The -1 of a failed `read` is a `size_t` like any other.
pub relay : (buf : ℕ) → List (ReadResult × List Written) → Run (List (ℕ × ℕ))
relay buf [] = out_of_fuel
relay buf ((took [], ws) ∷ rs) = ok []
relay buf ((took (b ∷ bs), ws) ∷ rs) = do
  calls ← send_loop false ws buf (length (b ∷ bs))
  later ← relay buf rs
  ok (calls ++ later)
relay buf ((failed, ws) ∷ rs) = do
  calls ← send_loop false ws buf (word - 1)
  later ← relay buf rs
  ok (calls ++ later)

-- `proxy_mute_post` of the text at `addr`: the calls of `write`. It returns nothing but 0.
pub proxy_mute_post :
    (addr : ℕ) (text : List ℕ)
    → List Written
    → (buf : ℕ) → List (ReadResult × List Written)
    → Run (List (ℕ × ℕ))
unfolding relay
proxy_mute_post addr text ws buf relays = do
  calls ← send_loop true ws addr (length text)
  later ← relay buf relays
  ok (calls ++ later)

-- the answer of a backend in its place for good: `n` bytes of the buffer in the pool
abbrev pub place_answer : (block n : ℕ) → List Page → Run (ℕ × List Page)
place_answer block n pool =
    if ltb pool_siz n
    then (mem_pool_add block n pool >>= (λ pool'. ok (block, pool')))
    else mem_pool_alloc block n pool

-- What the system does for `proxy_to_client`: the calls of `read` for the head, what `malloc` left in
-- its buffer, what stands behind the copy of it, the block for a large one, the calls of `write` and
-- `read` of the relay with its buffer, what `epoll_ctl` returns, and what `post_to_proxy` is given.
pub record Backend : Type 0 where
  pub reads : List ReadResult
  pub buffer : List ℕ
  pub behind : List ℕ
  pub block : ℕ
  pub writes : List Written
  pub buf : ℕ
  pub relays : List (ReadResult × List Written)
  pub removed : Status
  pub active : Option (List (Answer × ℕ))
  pub kill : ℕ → Killed
  pub tries : List Try
  pub added : Status
  pub tmp : ℕ
  pub f_tmp : Option (List ℕ)

-- the label CLEAN of `proxy_to_client`
pub clean :
    (rounds : ℕ)
    → Backend
    → (pfd : ℕ) → Passing
    → (removed : Status) → Run (Status × List Action × Passing)
unfolding post_to_proxy
clean rounds b pfd s failure = ok (failure, unwatch pfd ∷ logged ∷ [], s)
clean rounds b pfd s success =
    post_to_proxy rounds b.active b.kill b.tries b.added b.tmp b.f_tmp s
    >>= (λ (actions, s'). ok (success, unwatch pfd ∷ actions, s'))

-- `proxy_to_client`; the result -1 is `failure`, and 1 is `success`
pub proxy_to_client :
    (rounds : ℕ) → Backend → (pfd : ℕ) → Passing → Run (Status × List Action × Passing)
unfolding proxy_mute_post clean
proxy_to_client rounds b pfd s = do
  (buf_siz, filled, rest, later) ← read_head b.reads 0 head_siz b.buffer
  let n = (head_siz + (word - rest)) % word
  (ptr, pool) ← place_answer b.block n s.pool
  let text = take n filled ++ b.behind
  status ← http_response_parser (c_string (take 50 text))
  let s₁ : Passing = record s { pool = pool }
  let relayed : Run (Status × List Action × Passing) = do
    calls ← proxy_mute_post ptr (c_string text) b.writes b.buf b.relays
    ok (failure, write_actions calls, s₁)
  if status == 200 then relayed else clean rounds b pfd s₁ b.removed
