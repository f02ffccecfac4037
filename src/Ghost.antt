-- ===== src/Ghost.antt =====
-- src/ghost.c: the master process, which starts the listener processes and replaces those that die,
-- and `port_to_ghost` of src/main.c. What the system's calls return is an argument. `fork` makes two
-- processes of one: the model follows the one that its result names, and the new one becomes a
-- listener for good.
pub mod Start
pub mod Replace
mod Tests
use lidas.Base.{
  ℕ, zero, suc, ◌+◌, ◌*◌, Bool, not, ◌&&◌, Option, none, some, List, [], ◌∷◌, ◌++◌, ◌==◌,
  if◌then◌else◌, set, get_elem?, replicate, Run, ok, exited, out_of_fuel, ◌>>=◌, or_fault, Status,
  success, failure,
}
use lidas.Config.{GroupFile, ServerBasic, load_proxy, lida_read_hosts}

-- what `fork` returns
pub data Forked : Type 0 where
  parent : (pid : ℕ) → Forked
  child : Forked
  no_fork : Forked

-- the process after the calls of `fork`: the one that called, or a new listener
pub data Process (A : Type 0) : Type 0 where
  master : A → Process A
  listener : Process A

-- `socket`, `bind` and `listen`, the last with its backlog
pub data SocketCall : Type 0 where
  bind : (fd port : ℕ) → SocketCall
  listen : (fd backlog : ℕ) → SocketCall

-- `passiveTCP`, with the result of each call; the calls that it makes on the socket
pub passive_tcp :
    ServerBasic → (socket : Option ℕ) → (bound listens : Status) → Option ℕ × List SocketCall
passive_tcp true_type none bound listens = (none, [])
passive_tcp true_type (some fd) failure listens = (none, bind fd true_type.port ∷ [])
passive_tcp true_type (some fd) success listens =
    let calls = bind fd true_type.port ∷ listen fd (true_type.connect * true_type.listener) ∷ [] in
    elim listens [ success ↦ (some fd, calls) | failure ↦ (none, calls) ]

-- the `for` of `lida_fork` from `i` on
pub fork_listeners : (rounds i : ℕ) → List Forked → (listener_lst : List ℕ) → Run (Process (List ℕ))
fork_listeners zero i forks lst = ok (master lst)
fork_listeners (suc n) i [] lst = out_of_fuel
fork_listeners (suc n) i (no_fork ∷ forks) lst = exited
fork_listeners (suc n) i (child ∷ forks) lst = ok listener
fork_listeners (suc n) i (parent pid ∷ forks) lst = fork_listeners n (i + 1) forks (set lst i pid)

-- `lida_fork`: the listening socket, and `listener_lst`
pub lida_fork :
    ServerBasic
    → (socket : Option ℕ) → (bound listens : Status) → List Forked
    → Run (ℕ × Process (List ℕ))
unfolding fork_listeners passive_tcp
lida_fork true_type socket bound listens forks =
    elim (passive_tcp true_type socket bound listens).0 [
      | none ↦ exited
      | some msock ↦
          fork_listeners true_type.listener 0 forks (replicate true_type.listener 0)
          >>= (λ p. ok (msock, p))
    ]

-- The `for` of `check_client` from `i` on, for the dead child `chid`: the list, and what `fork`
-- returns later.
pub restart :
    (rounds i chid : ℕ)
    → List Forked
    → (listener_lst : List ℕ) → Run (Process (List ℕ × List Forked))
restart zero i chid forks lst = ok (master (lst, forks))
restart (suc n) i chid forks lst = or_fault (get_elem? lst i) >>= (λ p.
    if p == chid
    then elim forks [
      | [] ↦ out_of_fuel
      | f ∷ fs ↦ elim f [
        | no_fork ↦ exited
        | child ↦ ok listener
        | parent pid ↦ restart n (i + 1) chid fs (set lst i pid)
      ]
    ]
    else restart n (i + 1) chid forks lst)

-- what `waitpid` with WNOHANG returns: a child, and whether a signal ended it; 0 if no child has
-- changed its state; -1 if there is no child
pub data Waited : Type 0 where
  changed : (pid : ℕ) (signaled : Bool) → Waited
  unchanged : Waited
  no_child : Waited

-- a round of `check_client` that goes on as `next` with the list
abbrev after_restart :
    (next : List Forked → List ℕ → Run (Process (List ℕ)))
    → Process (List ℕ × List Forked)
    → Run (Process (List ℕ))
after_restart next listener = ok listener
after_restart next (master (lst, forks)) = next forks lst

-- `check_client`. `status` says of the last child whose status was stored that a signal ended it.
pub check_client :
    (quit_flag : Bool) (count : ℕ)
    → List Waited
    → List Forked
    → (status : Bool) (listener_lst : List ℕ) → Run (Process (List ℕ))
unfolding restart
check_client quit count [] forks status lst = out_of_fuel
check_client quit count (no_child ∷ ws) forks status lst = ok (master lst)
check_client quit count (unchanged ∷ ws) forks status lst =
    let next = λ (fs : List Forked) (l : List ℕ). check_client quit count ws fs status l in
    if status && not quit
    then (restart count 0 0 forks lst >>= after_restart next)
    else next forks lst
check_client quit count (changed pid signaled ∷ ws) forks status lst =
    let next = λ (fs : List Forked) (l : List ℕ). check_client quit count ws fs signaled l in
    if signaled && not quit
    then (restart count 0 pid forks lst >>= after_restart next)
    else next forks lst

-- what the calls of `backend` return, in its order
pub record Startup : Type 0 where
  pub setsid : Status
  pub chdir : Status
  pub log_file : Status
  pub socket : Option ℕ
  pub bound : Status
  pub listens : Status
  pub forks : List Forked
  pub signal : (sig : ℕ) → Status

abbrev pub sigint : ℕ
sigint = 2

abbrev pub sigkill : ℕ
sigkill = 9

abbrev pub sigchld : ℕ
sigchld = 17

-- `ERR_EXIT` if the call failed
abbrev pub checked : Status → Run (Unit {0})
checked success = ok tt
checked failure = exited

-- the handlers that `backend` registers, in the master process
abbrev pub register : (signal : ℕ → Status) → ℕ × Process (List ℕ) → Run (Process (ℕ × List ℕ))
register signal (msock, listener) = ok listener
register signal (msock, master lst) = do
  sigchld_set ← checked (signal sigchld)
  sigint_set ← checked (signal sigint)
  sigkill_set ← checked (signal sigkill)
  ok (master (msock, lst))

-- `backend`, up to the loop in which it waits for signals. `lida_read_default` gives `true_type`; the
-- groups and hosts are those of the configuration file.
pub backend :
    (rounds : ℕ)
    → ServerBasic
    → List GroupFile
    → (hosts : List (List ℕ)) → Startup
    → Run (Process (ℕ × List ℕ))
unfolding lida_fork
backend rounds true_type groups hosts s = do
  proxies ← load_proxy rounds 0 groups
  host_lst ← lida_read_hosts hosts
  session ← checked s.setsid
  root ← checked s.chdir
  log_fd ← checked s.log_file
  p ← lida_fork true_type s.socket s.bound s.listens s.forks
  register s.signal p

-- `port_to_ghost`: whether this process is to run `backend`; the other one, and the one whose `fork`
-- fails, exits
unfoldable port_to_ghost : Forked → Run (Unit {0})
port_to_ghost child = ok tt
port_to_ghost no_fork = exited
port_to_ghost (parent pid) = exited

-- `lida_reboot`, the handler of SIGINT, with the value of `proxy_group_hash_n` and the result of
-- `kill`
unfoldable lida_reboot :
    (rounds : ℕ)
    → ServerBasic
    → (proxy_group_hash_n : ℕ) → List GroupFile
    → (hosts : List (List ℕ)) (killed : Status) → Startup
    → Run (ℕ × Process (List ℕ))
unfolding lida_fork
lida_reboot rounds true_type n groups hosts killed s = do
  proxies ← load_proxy rounds n groups
  host_lst ← lida_read_hosts hosts
  interrupted ← checked killed
  lida_fork true_type s.socket s.bound s.listens s.forks

-- what `read_exit` asks of the system
pub data ExitCall : Type 0 where
  kill : (pid sig : ℕ) → ExitCall
  logged : ExitCall
  wait : (pid : ℕ) → ExitCall

abbrev pub waits : List ℕ → List ExitCall
waits [] = []
waits (pid ∷ pids) = wait pid ∷ waits pids

-- `read_exit` until the process ends. `kill (0, SIGKILL)` reaches the caller as well: if it succeeds,
-- nothing more is done.
unfoldable read_exit : (killed : Status) (listener_lst : List ℕ) → List ExitCall
read_exit success lst = kill 0 sigkill ∷ []
read_exit failure lst = kill 0 sigkill ∷ logged ∷ logged ∷ (waits lst ++ (logged ∷ []))
