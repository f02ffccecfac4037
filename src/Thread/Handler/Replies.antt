-- ===== src/Thread/Handler/Replies.antt =====
-- What a client gets of `func_redirect` (src/thread.c)
use lidas.Base.{ℕ, ◌≡◌, refl, ◌⊎◌, Option, none, some, List, [], ◌∷◌, ok}
use lidas.Memory.Pool.{Page}
use lidas.Snd.File.{error, error_post}
use lidas.ReadEvent.Request.{ConfigInfo, Received, host_search}
use lidas.ReadEvent.Host.{file_search-none}
use lidas.Thread.Handler.{Reply, post, Site, respond_for, respond}

-- the answer that is nothing but an error page
abbrev pub error_page : ℕ → List Reply
error_page status = post (error (error_post status)) ∷ []

-- the error that is answered to a request, by what `host_search` finds
abbrev pub refusal : Option ConfigInfo → ℕ
refusal none = 400
refusal (some q) = 404

-- In the part of `func_redirect` behind `read_event`, a request with a target whose host can be looked
-- up is answered by one error page, and by nothing else: 400 for an unknown host, and 404 for every
-- target of a known one.
pub respond_lem :
    (rounds : ℕ) (site : Site) (received : Received) (u : List ℕ) (pool : List Page)
    (found : Option ConfigInfo)
    → received.request.url ≡ some u
    → host_search received.request.list site.host_lst site.host_hash_n ≡ ok found
    → respond rounds site received pool ≡ ok (error_page (refusal found), pool)
unfolding respond respond_for
respond_lem rounds site received u pool none target host = rw host refl
respond_lem rounds site received u pool (some q) target host =
    rw (host, target, file_search-none received.request.method q u site.disk pool) refl

-- an error page, 400 or 404
abbrev pub IsRefusal : List Reply → Type 0
IsRefusal replies = (replies ≡ error_page 400) ⊎ (replies ≡ error_page 404)
