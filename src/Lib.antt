-- ===== src/Lib.antt =====
-- LIDA: a web server and reverse proxy in C
--
-- The server (src/) forks listener processes. A listener accepts clients, waits for events with epoll
-- and gives each to a thread of a pool. The thread parses the request, and answers it from a file or
-- through a backend that it takes from a group of weighted nodes. A timer ends connections that are
-- too old. Each connection has a memory pool and a log; the structures themselves live in caches of
-- cells of one size.
--
-- How the parts meet: src/listener.c calls `thread_pool_alloc` (src/thread.c), which keeps the idle
-- threads in the linked queue of src/queue_chain.c. src/timer.c keeps the connections in the ring of
-- src/queue.c, their structures in a cache, their texts in a pool (src/memory.c) and their log by
-- src/log.c. src/proxy.c keeps the nodes of a group in the heap of src/heap.c, each with a ring of
-- sockets; src/config.c fills both from the configuration. src/http_parser.c keeps headers, hosts and
-- groups in the same hash table, with src/crc32.h as its hash function.
--
-- Which file models which part:
--   Base           Boolean tests, C arrays as lists, the results of a call (`Run`)
--   Queue          src/queue.c, src/queue.h (`queue_init`, `queue_in`, `queue_out`, `Q_IS_FULL`)
--   QueueChain     src/queue_chain.c (`queue_chain_in`, `queue_chain_out`)
--   Heap           src/heap.c (`heap_init`, `heap_insert`, `heap_max_delete`, `heap_traversal`)
--   Stack          src/stack.c (`stack_init`, `stack_push`, `stack_pop`)
--   Memory.Cache   src/memory.c, the caches (`mem_cache_creat`, `_locate`, `_alloc`, `_free`)
--   Memory.Pool    src/memory.c, the pools (`mem_pool_creat`, `_extend`, `_alloc`, `_add`, `_destroy`)
--   Text           the C library's string functions that the sources call
--   Http.Crc       src/crc32.h and `crc32_port`
--   Http.Hash      the hash table of src/http_parser.c
--   Http.Parser    the parser of src/http_parser.c, and `lida_breakline` of src/main.c
--   Snd            src/snd.c (`post_loop`, `stream_to_socket`, `post_header`); Snd.File `error_post` and
--                  `post_file`
--   ReadEvent      src/read_event.c (`get_content_len`, `write_to_stream`); ReadEvent.Request
--                  `read_event`, `host_search`, `file_search`
--   Log            src/log.c (`buf_log_init`, `err_log`, `proxy_post_log`, `buf_log_destroy`)
--   Timer          src/timer.c, and `timer_trigger` and the alarm of src/manager.c
--   Proxy          src/proxy.c (`load_balance`, `ret_proxy_fd`, `proxy_heap_handler`, `re_connect`,
--                  `match_proxy`); Proxy.Pass `post_to_proxy`, `proxy_sock_wake`, `proxy_mute_post`,
--                  `proxy_to_client`; Proxy.Init `slaveTCP`, `proxy_init`
--   Thread         src/thread.c (`thread_pool_init`, `thread_pool_alloc`, `tmp_thread_port`,
--                  `thread_event_wait`, `thread_key_init`); Thread.Worker the life of a thread;
--                  Thread.Handler `func_redirect`
--   Listener       src/listener.c (the redirection of events, `connect_destruct`); Listener.Accept
--                  the locks, the tests of the event loop and `listen_event`; Listener.Process
--                  `lida_listener_proc`, `listener_signal`, `listener_kill`
--   Config         src/config.c (sizes, times, defaults, backends, hosts)
--   Response       src/response.c (`reponse_head`, `get_mime`)
--   RbTree         src/modules/rbtree.c: the search and the rotations; RbTree.Insert, RbTree.Delete and
--                  RbTree.Walk the rest
--   Ghost          src/ghost.c (`backend`, `lida_fork`, `passiveTCP`, `check_client`, `lida_reboot`,
--                  `read_exit`) and `port_to_ghost` of src/main.c
--
-- State is a record that a call takes and returns. A pointer is a number, 0 being NULL; where the code
-- shares structures by pointer, the structures are a function of the address. A call returns, faults
-- (an access through NULL or outside a block, a division by zero), ends the process or the thread, or
-- uses up the rounds that it is given. What the system and the allocator return is an argument.
--
-- Memory that the sources never set is an argument too: the `next` of a node of a hash table
-- (Http.Hash.Stale), the buffers, the unset pointers. A text that is written to an array that is too
-- short for it is a fault.
--
-- Rounds: the loop of `header_loop` gets the length of the text, which every round shortens; the loops
-- of src/heap.c get as many rounds as there are entries; `stream_to_socket` one more than there are
-- whole pages; `timer_task`, `thread_pool_alloc` and `post_to_proxy` one for each time that they start
-- again; the loops of src/modules/rbtree.c one more than the tree is high. Loops over what the system
-- returns, such as that of `check_client`, stop with `out_of_fuel` when the list of results ends.
-- Machine integers wrap where the code can reach the bound (`size_t` in src/snd.c and
-- src/read_event.c, the checksum, `atoi`); indices and counts stay below it.
--
-- Not modelled: src/disk.c and src/modules/cache.c, which the makefile does not build;
-- src/http-parser-master of another project; the signal set-up of `manager_thread`; commented-out
-- code. Concurrent threads are modelled in Thread.Worker only.
-- Two calls name functions that no file defines, and are read as those that are meant:
-- `hash_confilctsearch` (src/http_parser.c) as `hash_conflictsearch`, and `heap_ergodic` (src/proxy.c) as
-- `heap_traversal`.

pub mod Base
pub mod Queue
pub mod Heap
pub mod Text
pub mod Http
pub mod Stack
pub mod Memory
pub mod Snd
pub mod ReadEvent
pub mod Log
pub mod Timer
pub mod QueueChain
pub mod Proxy
pub mod Thread
pub mod Listener
pub mod Config
pub mod Ghost
pub mod RbTree
pub mod Response
