-- ===== src/Ghost/Start.antt =====
-- How the master process (src/ghost.c) starts
use lidas.Base.{
  ℕ, zero, suc, ◌+◌, ◌-◌, ◌<◌, ◌≡◌, refl, sym, ◌∙◌, ◌≢◌, some, List, [], ◌∷◌, ◌++◌, arith, length,
  replicate, set, ok, exited, Status, success, failure, append_assoc, append-nil, set-behind,
  length-append, bind-ok, ok-inj, exited-ne_ok,
}
use lidas.Config.{GroupFile, ServerBasic, load_proxy, lida_read_hosts}
use lidas.Ghost.{
  Forked, parent, child, no_fork, Process, master, listener, passive_tcp, fork_listeners, lida_fork,
  Startup, sigint, sigkill, sigchld, checked, register, backend,
}

listener-ne_master : {A : Type 0} {a : A} → listener ≡ master a → ⊥
listener-ne_master e = cc

-- the calls of `fork` that succeed before another result
abbrev pub parents_then : List ℕ → List Forked → List Forked
parents_then [] forks = forks
parents_then (p ∷ ps) forks = parent p ∷ parents_then ps forks

forked-step :
    (before : List ℕ) (p n : ℕ)
    → set (before ++ replicate (suc n) 0) (length before) p ≡ (before ++ (p ∷ [])) ++ replicate n 0
forked-step before p n =
    set-behind before 0 p (replicate n 0) ∙ sym (append_assoc before (p ∷ []) (replicate n 0))

fork_listeners-parents :
    (before ps : List ℕ) (m n : ℕ) (forks : List Forked)
    → m ≡ length ps + n
    → fork_listeners m (length before) (parents_then ps forks) (before ++ replicate m 0)
      ≡ fork_listeners n (length (before ++ ps)) forks ((before ++ ps) ++ replicate n 0)
unfolding fork_listeners
fork_listeners-parents before [] m n forks e =
    let same : m ≡ n = omega arith in rw (append-nil before, same) refl
fork_listeners-parents before (p ∷ ps) zero n forks e = absurd (omega arith)
fork_listeners-parents before (p ∷ ps) (suc m) n forks e =
    let i : length before + 1 ≡ length (before ++ (p ∷ [])) =
      omega (arith, length-append before (p ∷ [])) in
    rw (forked-step before p m, i)
      (fork_listeners-parents (before ++ (p ∷ [])) ps m n forks (omega arith)
        ∙ rw (append_assoc before (p ∷ []) ps) refl)

-- If the three calls on the socket succeed and so does every `fork`, `lida_fork` in the process that
-- called it gives the socket and the pids of all listeners, each in the place of its number.
pub lida_fork_lem :
    (t : ServerBasic) (fd : ℕ) (pids : List ℕ) (later : List Forked)
    → length pids ≡ t.listener
    → lida_fork t (some fd) success success (parents_then pids later) ≡ ok (fd, master pids)
unfolding lida_fork fork_listeners passive_tcp
lida_fork_lem t fd pids later all =
    rw (fork_listeners-parents [] pids t.listener 0 later (omega arith), append-nil pids) refl

-- The process of each new child is a listener. If a `fork` fails before all listeners are there, the
-- process exits.
pub lida_fork-listener :
    (t : ServerBasic) (fd : ℕ) (pids : List ℕ) (later : List Forked)
    → length pids < t.listener
    → (lida_fork t (some fd) success success (parents_then pids (child ∷ later))
        ≡ ok (fd, listener))
      × (lida_fork t (some fd) success success (parents_then pids (no_fork ∷ later)) ≡ exited)
unfolding lida_fork fork_listeners passive_tcp
lida_fork-listener t fd pids later fewer =
    let n = t.listener - length pids - 1 in
    let run = λ (forks : List Forked).
      fork_listeners-parents [] pids t.listener (suc n) forks (omega arith) in
    (rw (run (child ∷ later)) refl, rw (run (no_fork ∷ later)) refl)

register-never :
    (signal : ℕ → Status) (p : ℕ × Process (List ℕ)) (m : ℕ × List ℕ)
    → signal sigkill ≡ failure
    → register signal p ≢ ok (master m)
register-never signal (fd, listener) m refused e = absurd (listener-ne_master (ok-inj _ _ e))
register-never signal (fd, master lst) m refused e =
    let (a, e1, f1) = bind-ok (checked (signal sigchld)) _ _ e in
    let (b, e2, f2) = bind-ok (checked (signal sigint)) _ _ f1 in exited-ne_ok (rw refused at f2)

-- The system lets no process handle SIGKILL: `signal` fails for it. Then the master never gets to
-- the loop in which it waits for its signals: whatever the configuration is and whatever all the
-- other calls return, `backend` ends before, or the process has become a listener.
pub backend-never_waits :
    (rounds : ℕ) (t : ServerBasic) (groups : List GroupFile) (hosts : List (List ℕ)) (s : Startup)
    (m : ℕ × List ℕ)
    → s.signal sigkill ≡ failure
    → backend rounds t groups hosts s ≢ ok (master m)
unfolding backend
backend-never_waits rounds t groups hosts s m refused e =
    let (a, ea, fa) = bind-ok (load_proxy rounds 0 groups) _ _ e in
    let (b, eb, fb) = bind-ok (lida_read_hosts hosts) _ _ fa in
    let (c, ec, fc) = bind-ok (checked s.setsid) _ _ fb in
    let (d, ed, fd) = bind-ok (checked s.chdir) _ _ fc in
    let (f, ef, ff) = bind-ok (checked s.log_file) _ _ fd in
    let (p, ep, fp) = bind-ok (lida_fork t s.socket s.bound s.listens s.forks) _ _ ff in
    register-never s.signal p m refused fp
