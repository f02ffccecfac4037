-- ===== src/Listener/Tests.antt =====
-- Events of a client at 5 and of a backend at 7
use lidas.Base.{
  ℕ, ◌≡◌, refl, ◌≢◌, true, false, none, some, [], ◌∷◌, arith, ◌==◌, if◌then◌else◌, ok, fault,
  success, failure, Returns,
}
use lidas.Listener.{
  common_rdevent, proxy_rdevent, proxy_wrevent, EventData, read_fd, is_listen, err_log, signal,
  start_thread, watch, Answers, sigcont, set_thread, rd_event_redirect, out_event_redirect,
}
use lidas.Listener.Accept.{ignore, handler_of, client, listen_event, busy, try_listen}
use lidas.Memory.Cache.{Cell}
use lidas.Config.{ServerBasic}
use lidas.Thread.{created}
use lidas.Listener.Process.{Startup, Event, handle_event, handle_events, listener_round}
use lidas.Listener.Loop.{handle_events-IsCombined}
use lidas.Listener.Redirect.{
  rd_event_redirect-client, redirect-backend, handler_of-ignores, Unlocks, listen_event-Unlocks,
}

abbrev request : EventData
request = record { fd = 5; pfd = 7; type = common_rdevent; node = 0; tmp = false; f_tmp = false }

abbrev answers : Answers
answers = record {
  thread_of = λ fd. if fd == 5 then some 33 else none;
  delivered = λ thread sig. thread == 33;
  new_thread = 34;
}

abbrev old : ℕ
old = 33

rd_event_redirect-client_test :
    (old ≢ 0
      → answers.delivered old sigcont ≡ true
      → rd_event_redirect 3 success answers request ≡ ok (signal 33 18 ∷ [], answers.thread_of))
    × (old ≢ 0
        → answers.delivered old sigcont ≡ false
        → rd_event_redirect 3 success answers request
          ≡ ok (
            signal 33 18 ∷ err_log 5 ∷ start_thread request ∷ watch 5 ∷ [],
            set_thread answers.thread_of 5 34,
          ))
    × (old ≡ 0
        → rd_event_redirect 3 success answers request
          ≡ ok (start_thread request ∷ watch 5 ∷ [], set_thread answers.thread_of 5 34))
rd_event_redirect-client_test = rd_event_redirect-client 3 33 success answers request refl refl

abbrev backend : EventData
backend = record request { type = proxy_rdevent }

redirect-backend_test :
    (backend.type ≡ proxy_rdevent → rd_event_redirect 3 success answers backend ≡ fault)
    × (backend.type ≡ proxy_wrevent → out_event_redirect answers backend ≡ fault)
redirect-backend_test = redirect-backend 3 success answers backend refl

handler_of-ignores_test : handler_of 8193 ≡ ignore
handler_of-ignores_test =
    handler_of-ignores 8193 (ground arith) (ground arith) (ground arith) (ground arith)
      (ground arith)

abbrev cell : ℕ
cell = 64

listen_event-Unlocks_test :
    (cell ≢ 0
      → Returns
          (λ r. Unlocks r.1)
          (listen_event (client 5) success cell failure true success failure))
    × (listen_event (client 5) failure cell failure true success failure ≡ ok (failure, []))
listen_event-Unlocks_test = listen_event-Unlocks 5 cell failure true success failure

-- A full queue does not keep a listener from the lock as long as it is not told to stop.
try_listen_test : try_listen true false busy success true ≡ ok false
unfolding try_listen
try_listen_test = refl

abbrev basic : ServerBasic
basic = record { port = 80; listener = 2; connect = 10; keep_alive = 30; max_thread = 1 }

abbrev free_cells : ℕ → Cell
free_cells a = record { prev = 0; next = 0 }

abbrev startup : Startup
startup = record {
  timer_block = 4096;
  timer_memory = free_cells;
  mutex = success;
  pool_mutex = success;
  garbage = 77;
  results = created 33 700 ∷ [];
  thread_nodes = 64 ∷ [];
  manager = success;
  masked = success;
  installed = success;
  event_block = 8192;
  event_memory = free_cells;
}

abbrev closed : Event
closed = record { events = 8193; obj = request; accepted = success; taken = 0; balanced = 0 }

handle_events-IsCombined_test :
    handle_events 3 answers (closed ∷ closed ∷ []) ≡ ok ([], answers.thread_of)
handle_events-IsCombined_test =
    handle_events-IsCombined 3 answers (closed ∷ closed ∷ []) (ground arith)

-- A round in which a client has sent a request and another has closed its side
listener_round_test :
    listener_round 3 answers false false busy success false
      (some (record closed { events = 1 } ∷ closed ∷ []))
    ≡ ok (false, signal 33 18 ∷ [], answers.thread_of)
unfolding listener_round try_listen handle_events handle_event handler_of rd_event_redirect read_fd
    is_listen
listener_round_test = refl
