-- ===== src/Thread/Handler.antt =====
-- `func_redirect` of src/thread.c: what a thread does with the event that it was given
pub mod Replies
mod Tests
use lidas.Base.{
  ◌>>=◌, ◌>>◌, ℕ, Bool, Option, none, some, List, [], ◌∷◌, ◌++◌, Run, ok, or_fault, Status, success,
  failure,
}
use lidas.Text.Literals.{codes}
use lidas.Http.Crc.{crc32_port}
use lidas.Http.Hash.{Table, Stale, hash_search}
use lidas.Memory.Pool.{Page}
use lidas.Snd.File.{Post, error, error_post, FileAnswers, post_file}
use lidas.ReadEvent.{ReadResult}
use lidas.ReadEvent.Request.{ConfigInfo, Received, Disk, read_event, host_search, file_search}
use lidas.Listener.{
  EventType, listen_event_type, common_rdevent, common_wrevent, proxy_rdevent, proxy_wrevent,
  proxy_reconnect, other_type,
}
use lidas.Proxy.{re_connect, ret_proxy_fd}
use lidas.Proxy.Pass.{Action, Passing, Backend, proxy_to_client}

-- what `read_event` is given by the system and by the memory of the connection
pub record Incoming : Type 0 where
  pub reads : List ReadResult
  pub buffer : List ℕ
  pub behind : List ℕ
  pub left : Stale (List ℕ)
  pub list : Table (List ℕ)
  pub opened : Bool
  pub waits : List Status

-- the virtual hosts, the file system, and what `epoll_ctl` returns
pub record Site : Type 0 where
  pub host_lst : Table ConfigInfo
  pub host_hash_n : ℕ
  pub disk : Disk
  pub file : (path : List ℕ) → FileAnswers
  pub watched : Status

pub data Reply : Type 0 where
  post : Post → Reply
  proxy : Action → Reply
  watch_again : Reply
  unwatch : Reply
  logged : Reply

abbrev pub posts : List Post → List Reply
posts [] = []
posts (p ∷ ps) = post p ∷ posts ps

abbrev pub error_pages : List (List ℕ) → List Reply
error_pages [] = []
error_pages (text ∷ texts) = post (error text) ∷ error_pages texts

abbrev pub proxies : List Action → List Reply
proxies [] = []
proxies (a ∷ actions) = proxy a ∷ proxies actions

-- the call of `epoll_ctl` at the end of a branch, and its entry in the log if it fails
abbrev pub controlled : Status → Reply → List Reply
controlled success r = r ∷ []
controlled failure r = r ∷ logged ∷ []

-- `func_redirect` from a request and the host found for it on
pub respond_for :
    (rounds : ℕ) → Site → Received → List Page → Option ConfigInfo → Run (List Reply × List Page)
unfolding file_search
respond_for rounds site received pool none = ok (post (error (error_post 400)) ∷ [], pool)
respond_for rounds site received pool (some q) =
    let r = received.request in
    file_search r.method q r.url site.disk pool >>= (λ (found, pool'). elim found [
      | none ↦ ok (post (error (error_post 404)) ∷ [], pool')
      | some path ↦ hash_search crc32_port (codes "Content-type") r.list 29 >>= (λ type.
          post_file rounds type r.method (site.file path) pool'
          >>= (λ (ps, pool''). ok (posts ps ++ controlled site.watched watch_again, pool'')))
    ])

-- and from the received request on
pub respond : (rounds : ℕ) → Site → Received → List Page → Run (List Reply × List Page)
unfolding host_search respond_for
respond rounds site received pool =
    host_search received.request.list site.host_lst site.host_hash_n
    >>= respond_for rounds site received pool

-- the event, its node and sockets, and what the system does for each kind of it
pub record Task : Type 0 where
  pub type : EventType
  pub fd : ℕ
  pub pfd : ℕ
  pub node : ℕ
  pub incoming : Incoming
  pub site : Site
  pub backend : Backend
  pub valid_ip : Bool
  pub connects : List Status
  pub removed : Status

-- the branch COMMON_RDEVENT: the request that `read_event` gives, or a read through NULL
abbrev pub handle_request : (rounds fd : ℕ) → Incoming → Site → Passing → Run (List Reply × Passing)
handle_request rounds fd i site s = do
  (r, errors, pool) ← read_event i.reads fd i.buffer i.behind i.left i.list i.opened i.waits s.pool
  received ← or_fault r
  (replies, pool') ← respond rounds site received pool
  ok (error_pages errors ++ replies, record s { pool = pool' })

-- the branch PROXY_RDEVENT
abbrev pub handle_answer : (rounds : ℕ) → Task → Passing → Run (List Reply × Passing)
handle_answer rounds t s = do
  (r, actions, s₁) ← proxy_to_client rounds t.backend t.pfd s
  at ← ret_proxy_fd t.pfd t.node s₁.group.at
  ok (
    proxies actions ++ controlled t.removed unwatch,
    record s₁ { group = record s₁.group { at = at } },
  )

-- the branch PROXY_RECONNECT
abbrev pub handle_reconnect : Task → Passing → Run (List Reply × Passing)
handle_reconnect t s = do
  r ← re_connect t.valid_ip t.connects t.fd
  at ← ret_proxy_fd t.fd t.node s.group.at
  ok ([], record s { group = record s.group { at = at } })

-- `func_redirect`
pub func_redirect : (rounds : ℕ) → Task → Passing → Run (List Reply × Passing)
unfolding respond
func_redirect rounds t s = elim t.type [
  | listen_event_type ↦ ok ([], s)
  | common_rdevent ↦ handle_request rounds t.fd t.incoming t.site s
  | common_wrevent ↦ ok ([], s)
  | proxy_rdevent ↦ handle_answer rounds t s
  | proxy_wrevent ↦ ok ([], s)
  | proxy_reconnect ↦ handle_reconnect t s
  | other_type ↦ ok ([], s)
]
