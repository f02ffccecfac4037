-- ===== src/Ghost/Tests.antt =====
-- A master with two listeners, 101 and 102
use lidas.Base.{
  ℕ, ◌≡◌, refl, ◌≢◌, true, false, some, [], ◌∷◌, arith, ok, exited, out_of_fuel, success, failure,
  Status, ◌==◌, if◌then◌else◌, replicate,
}
use lidas.Config.{ServerBasic, load_proxy, lida_read_hosts}
use lidas.Ghost.{
  kill, logged, wait, read_exit, parent, child, no_fork, master, listener, passive_tcp, lida_fork,
  changed, unchanged, check_client, Startup, sigkill, backend, port_to_ghost, bind, listen,
}
use lidas.Ghost.Start.{lida_fork_lem, lida_fork-listener, backend-never_waits}
use lidas.Ghost.Replace.{
  here, there, Replaced, done, next, check_client-replaces, check_client-spins,
}

abbrev two_listeners : ServerBasic
two_listeners = record { port = 80; listener = 2; connect = 50; keep_alive = 60; max_thread = 8 }

passive_tcp_test :
    passive_tcp two_listeners (some 4) success success ≡ (some 4, bind 4 80 ∷ listen 4 100 ∷ [])
unfolding passive_tcp
passive_tcp_test = refl

lida_fork_lem_test :
    lida_fork two_listeners (some 4) success success (parent 101 ∷ parent 102 ∷ [])
    ≡ ok (4, master (101 ∷ 102 ∷ []))
lida_fork_lem_test = lida_fork_lem two_listeners 4 (101 ∷ 102 ∷ []) [] refl

lida_fork-listener_test :
    (lida_fork two_listeners (some 4) success success (parent 101 ∷ child ∷ []) ≡ ok (4, listener))
    × (lida_fork two_listeners (some 4) success success (parent 101 ∷ no_fork ∷ []) ≡ exited)
lida_fork-listener_test = lida_fork-listener two_listeners 4 (101 ∷ []) [] (omega arith)

abbrev startup : (handled : Status) → Startup
startup handled = record {
  setsid = success;
  chdir = success;
  log_file = success;
  socket = some 4;
  bound = success;
  listens = success;
  forks = parent 101 ∷ parent 102 ∷ [];
  signal = λ sig. if sig == sigkill then handled else success;
}

backend-never_waits_test :
    backend 0 two_listeners [] [] (startup failure) ≢ ok (master (4, 101 ∷ 102 ∷ []))
backend-never_waits_test =
    backend-never_waits 0 two_listeners [] [] (startup failure) (4, 101 ∷ 102 ∷ []) refl

-- with a system that did let a process handle SIGKILL
backend_test : backend 0 two_listeners [] [] (startup success) ≡ ok (master (4, 101 ∷ 102 ∷ []))
unfolding backend load_proxy lida_read_hosts
backend_test = refl

both-Replaced : Replaced ((102, 103) ∷ (101, 104) ∷ []) (101 ∷ 102 ∷ []) (104 ∷ 103 ∷ [])
both-Replaced = next (there (omega arith) (here tt)) (next (here (omega arith, tt)) done)

check_client-replaces_example :
    (check_client false 2
        (changed 102 true ∷ changed 101 true ∷ unchanged ∷ unchanged ∷ [])
        (parent 103 ∷ parent 104 ∷ [])
        false
        (101 ∷ 102 ∷ [])
      ≡ check_client false 2 (unchanged ∷ unchanged ∷ []) [] true (104 ∷ 103 ∷ []))
    × (◌≡◌ {A = ℕ} 2 2)
check_client-replaces_example =
    check_client-replaces ((102, 103) ∷ (101, 104) ∷ []) (unchanged ∷ unchanged ∷ []) [] false
      (101 ∷ 102 ∷ []) (104 ∷ 103 ∷ []) both-Replaced

check_client-spins_example :
    check_client false 2
      (changed 102 true ∷ changed 101 true ∷ replicate 9 unchanged)
      (parent 103 ∷ parent 104 ∷ [])
      false
      (101 ∷ 102 ∷ [])
    ≡ out_of_fuel
check_client-spins_example =
    check_client-spins ((102, 103) ∷ (101, 104) ∷ []) 9 [] false (101 ∷ 102 ∷ []) (104 ∷ 103 ∷ [])
      both-Replaced (omega arith)

port_to_ghost_test : (port_to_ghost child ≡ ok tt) × (port_to_ghost (parent 7) ≡ exited)
unfolding port_to_ghost
port_to_ghost_test = (refl, refl)

-- Two listeners are waited for only if they could not be killed.
read_exit_test :
    read_exit failure (8 ∷ 9 ∷ []) ≡ kill 0 9 ∷ logged ∷ logged ∷ wait 8 ∷ wait 9 ∷ logged ∷ []
unfolding read_exit
read_exit_test = refl
