-- ===== src/Proxy/Pass/Answers.antt =====
-- What a client gets of a backend by src/proxy.c
use lidas.Base.{
  ℕ, ◌≡◌, refl, true, Option, none, some, List, [], ◌∷◌, length, ok, fault, out_of_fuel, Status,
  success, failure, Run,
}
use lidas.Snd.{Written}
use lidas.Snd.File.{error_post}
use lidas.ReadEvent.{ReadResult, took}
use lidas.Proxy.{Answer, send_loop}
use lidas.Proxy.Relay.{AreTaken, send_loop-repeats}
use lidas.Proxy.Connect.{match_proxy-faults}
use lidas.Proxy.Pass.{
  Action, to_client, logged, unwatch, Passing, Backend, relay, proxy_mute_post, post_to_proxy,
}

-- Once the first part of an answer is sent and the backend sends more, `proxy_mute_post` hands the
-- first bytes of that to the client again and again for as long as `write` takes any, and reads
-- nothing more: it does not return.
pub proxy_mute_post-repeats :
    (addr buf b : ℕ) (text bs : List ℕ) (ws vs : List Written) (calls : List (ℕ × ℕ))
    (rs : List (ReadResult × List Written))
    → send_loop true ws addr (length text) ≡ ok calls
    → AreTaken vs
    → proxy_mute_post addr text ws buf ((took (b ∷ bs), vs) ∷ rs) ≡ out_of_fuel
unfolding proxy_mute_post relay
proxy_mute_post-repeats addr buf b text bs ws vs calls rs sent more =
    rw (sent, send_loop-repeats vs buf (length (b ∷ bs)) more) refl

-- what `proxy_to_client` does with an answer that it does not pass on, by what `epoll_ctl` returns and
-- by whether the request has a pattern
abbrev pub refused :
    Status → Option (List (Answer × ℕ)) → (pfd : ℕ) → Passing → Run (Status × List Action × Passing)
refused failure active pfd s = ok (failure, unwatch pfd ∷ logged ∷ [], s)
refused success none pfd s = ok (success, unwatch pfd ∷ to_client (error_post 400) ∷ [], s)
refused success (some patterns) pfd s = fault

-- Of a request without a pattern the client gets the error page 400; with patterns the search for a
-- group reads behind them.
pub post_to_proxy_lem :
    (rounds : ℕ) (patterns : List (Answer × ℕ)) (b : Backend) (s : Passing)
    → (post_to_proxy rounds none b.kill b.tries b.added b.tmp b.f_tmp s
        ≡ ok (to_client (error_post 400) ∷ [], s))
      × (post_to_proxy rounds (some patterns) b.kill b.tries b.added b.tmp b.f_tmp s ≡ fault)
unfolding post_to_proxy
post_to_proxy_lem rounds patterns b s = (refl, rw (match_proxy-faults patterns) refl)
