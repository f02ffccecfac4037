-- ===== src/Thread/Handler/Tests.antt =====
-- Requests for a host that is known
use lidas.Base.{
  ℕ, ◌≡◌, refl, true, false, none, some, List, [], ◌∷◌, replicate, Run, ok, fault, exited,
  out_of_fuel, success,
}
use lidas.Text.Literals.{codes}
use lidas.Text.Compare.{str_eq}
use lidas.Http.Crc.{crc32_port, crc32_tab}
use lidas.Http.Hash.{Table, null, hash_set}
use lidas.ReadEvent.Request.{ConfigInfo, Received, host_search}
use lidas.ReadEvent.{took}
use lidas.Listener.{common_rdevent}
use lidas.Proxy.Pass.{Passing, Backend}
use lidas.Thread.{delivered}
use lidas.Thread.Handler.{Site, Task, respond}
use lidas.Thread.Handler.Replies.{error_page, respond_lem}

abbrev lida : ConfigInfo
lida = record { hostname = codes "/srv/lida"; frontpage = codes "/index.html" }

table_of {ℓ} : {A : Type ℓ} → Run (List A) → List A
table_of (ok t) = t
table_of fault = []
table_of exited = []
table_of out_of_fuel = []

headers : Table (List ℕ)
unfolding table_of hash_set crc32_port crc32_tab
headers = table_of (hash_set crc32_port (codes "host") (codes "lida") (replicate 29 none) 29 null)

hosts : Table ConfigInfo
unfolding table_of hash_set crc32_port crc32_tab
hosts = table_of (hash_set crc32_port (codes "lida") lida (replicate 2 none) 2 null)

abbrev site : Site
site = record {
  host_lst = hosts;
  host_hash_n = 2;
  disk = record { path = none; stat = λ path. success };
  file = λ path. record {
    bytes = none;
    stat = none;
    date = [];
    writable = true;
    header = success;
    buf = 4096;
    sends = [];
  };
  watched = success;
}

abbrev received : Received
received = record {
  request = record {
    method = codes "GET";
    url = some (codes "/");
    protocal = codes "HTTP/1.1";
    list = headers;
    list_siz = 29;
    offset = 0;
    request_body = [];
  };
  f_tmp = none;
}

lida-found : host_search headers hosts 2 ≡ ok (some lida)
unfolding host_search headers hosts str_eq lidas.Http.Hash.hash_search
lida-found = refl

respond_lem_example : respond 1 site received [] ≡ ok (error_page 404, [])
respond_lem_example = respond_lem 1 site received (codes "/") [] (some lida) refl lida-found

abbrev passing : Passing
passing = record {
  group = record {
    nodes = record { size = 0; cnt = 0; p = [] };
    block = 0;
    at = λ a. record {
      ip = [];
      port = 0;
      weight = 0;
      fds = record { max = 3; head = 0; tail = 0; slots = 0 ∷ 0 ∷ 0 ∷ [] };
    };
  };
  threads = record {
    idle = record {
      head = 0;
      tail = 0;
      cnt = 0;
      nodes = λ a. record { prev = 0; next = 0; datum = 0 };
    };
    threads = λ a. record { id = 0; tmp_flag = false; datum = 0 };
  };
  pool = [];
}

abbrev backend : Backend
backend = record {
  reads = [];
  buffer = [];
  behind = [];
  block = 0;
  writes = [];
  buf = 0;
  relays = [];
  removed = success;
  active = none;
  kill = λ id. delivered;
  tries = [];
  added = success;
  tmp = 0;
  f_tmp = none;
}

abbrev request : Task
request = record {
  type = common_rdevent;
  fd = 5;
  pfd = 0;
  node = 0;
  incoming = record {
    reads = took (codes "GET / HTTP/1.1\r\nA: b\r\nhost: lida\r\n\r\n") ∷ took [] ∷ [];
    buffer = replicate 100 0;
    behind = [];
    left = null;
    list = replicate 29 none;
    opened = true;
    waits = [];
  };
  site = site;
  backend = backend;
  valid_ip = true;
  connects = [];
  removed = success;
}
