-- ===== src/Proxy/Pass/Tests.antt =====
-- An answer of 200 that a backend sends on, and one of 502
use lidas.Base.{
  ◌≡◌, refl, false, none, some, List, [], ◌∷◌, ℕ, arith, replicate, ok, fault, out_of_fuel, success,
}
use lidas.Text.Literals.{codes}
use lidas.Snd.{wrote, post_loop}
use lidas.Snd.Loop.{calls_from}
use lidas.Snd.File.{error_post}
use lidas.Memory.Pool.{Page}
use lidas.ReadEvent.{took}
use lidas.Thread.{delivered}
use lidas.Proxy.Relay.{send_loop-sends}
use lidas.Proxy.Pass.{Passing, Backend, to_client, unwatch, proxy_mute_post, post_to_proxy, clean}
use lidas.Proxy.Pass.Answers.{proxy_mute_post-repeats, post_to_proxy_lem}

-- three bytes sent to the client, and then two of the backend
proxy_mute_post-repeats_test :
    proxy_mute_post 64
      (1 ∷ 2 ∷ 3 ∷ [])
      (wrote 3 ∷ [])
      4096
      ((took (7 ∷ 8 ∷ []), wrote 2 ∷ wrote 2 ∷ []) ∷ [])
    ≡ out_of_fuel
unfolding lidas.Snd.as_size
proxy_mute_post-repeats_test =
    proxy_mute_post-repeats 64 4096 7 (1 ∷ 2 ∷ 3 ∷ []) (8 ∷ []) (wrote 3 ∷ [])
      (wrote 2 ∷ wrote 2 ∷ []) (calls_from 64 3 (3 ∷ [])) []
      (send_loop-sends 64 3 [] (omega arith, tt) (omega arith)) (omega arith)

abbrev passing : Passing
passing = record {
  group = record {
    nodes = record { size = 0; cnt = 0; p = [] };
    block = 0;
    at = λ a. record {
      ip = [];
      port = 0;
      weight = 0;
      fds = record { max = 0; head = 0; tail = 0; slots = [] };
    };
  };
  threads = record {
    idle = record {
      head = 0;
      tail = 0;
      cnt = 0;
      nodes = λ a. record { prev = 0; next = 0; datum = 0 };
    };
    threads = λ a. record { id = 0; tmp_flag = false; datum = 0 };
  };
  pool = record { at = 8192; start = 8232; end_ = 12288; extra = []; words = λ a. 0 } ∷ [];
}

abbrev bad_gateway : Backend
bad_gateway = record {
  reads = took (codes "HTTP/1.1 502 Bad Gateway") ∷ took [] ∷ [];
  buffer = replicate 8192 0;
  behind = [];
  block = 0;
  writes = [];
  buf = 4096;
  relays = [];
  removed = success;
  active = none;
  kill = λ id. delivered;
  tries = [];
  added = success;
  tmp = 0;
  f_tmp = none;
}

abbrev head_bytes : List ℕ
head_bytes = codes "HTTP/1.1 502 Bad Gateway"

abbrev passed : List Page
passed = record { at = 8192; start = 8256; end_ = 12288; extra = []; words = λ a. 0 } ∷ []

clean_test :
    clean 0 bad_gateway 9 passing success
    ≡ ok (success, unwatch 9 ∷ to_client (error_post 400) ∷ [], passing)
unfolding clean
clean_test = refl

post_to_proxy_lem_test :
    (post_to_proxy 0 none (λ id. delivered) [] success 0 none passing
      ≡ ok (to_client (error_post 400) ∷ [], passing))
    × (post_to_proxy 0 (some []) (λ id. delivered) [] success 0 none passing ≡ fault)
post_to_proxy_lem_test = post_to_proxy_lem 0 [] bad_gateway passing
