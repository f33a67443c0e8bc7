-- ===== src/Lib.antt =====
-- A model of orb-weaver, an HTTP server in C, and what holds of it. Paths are below
-- `src/orb-weaver/`.
--
-- Parts. `main.c` reads the configuration and starts the orchestrator, whose poll loop accepts
-- connections and hands them to a pool of worker threads through a queue; a worker receives a
-- request and parses it. The hash table is the store for routes.
--
--   Orchestrator    services/orchestration/orchestrator/orchestrator.c and main.c: `Events` is the poll
--                   loop as the producer of the queue, `Threads` the set-up and the release of the
--                   pool in thread_handler.c, `Boot` the start and the end of the program, `Serving` the
--                   poll loop and the threads together, from a successful set-up on.
--   ThreadHandler   services/orchestration/thread-handler/thread_handler.c. `Queue` is the queue of
--                   connections on a heap of nodes, with `queue_tail` as the address of a pointer,
--                   `Queue.Chain.IsQueue` its invariant, and `Queue.Client` its calls against a list. `Pool` has the steps of `thread_runner` and of
--                   `enqueue_task` in any order. `Receive` reads the header section and the body.
--   ConnectionHandler services/tcp/connection-handler/connection_handler.c: the listening socket, and
--                   sending and receiving.
--   HostResolver    services/tcp/host-resolver/host_resolver.c.
--   HttpHandler     services/http/http-handler/http_handler.c: the request line (`RequestLine`), one header
--                   line (`HeaderLine`), the header section (`Metadata`) and `process_http_request`
--                   (`Process`), one child module each.
--   HttpTypes       types/http-types/http_types.h: the request and its headers; `Life` has the allocation
--                   and the release in http_types.c.
--   DynamicRouter   services/http/dynamic-router/dynamic_router.c; `bind_route` up to the line `if()`.
--   Hash            utilities/hash-tools/hash_tools.c: the open-address table. `Hash` has one function
--                   for each C function and each loop; `Hash.Table` is the invariant, `Hash.View` the
--                   finite map that a table stands for, and `Hash.Client` a sequence of calls
--                   against that map.
--   Configuration   configuration/parsers/configuration-handler/configuration_handler.c and its header:
--                   the `name = value` reader, and the lookups by name and by enumerator.
--   StringTools     utilities/string-tools/string_tools.c.
--   ErrorHandler    utilities/error-handler/error_handler.c.
--   Memory          blocks of memory and C strings: `p[i]`, `memcpy`, `strcmp`.
--   Prelude         numbers, lists and runs. A run ends in a value, or in a fault where the C code has
--                   undefined behaviour. `Prelude.Calls` is the interface between a component and
--                   the model of its state.
--   Tests           runs at concrete inputs.
--
-- Correspondence. A C function keeps its name, without a leading underscore. An out parameter is a
-- component of the result, a pointer that may be `NULL` is an `Option`, a `char` is its bit pattern,
-- and a `size_t` is a natural number with `% 2 ^ 64` where it can wrap. Log output is left out. What
-- the C library and the system return (`calloc`, `recv`, `kevent`, `getaddrinfo`, ...) is an
-- argument.
--
-- Threads. A state of `Pool` says where each thread stands and who holds `thread_lock`; a step is one
-- call that another thread can see. What runs with `enqueue_lock` held is one step, and so is a read
-- of `num_connections`. The relation covers every number of threads, every order of the steps, and
-- waits that end without a signal. A step that would be a fault is left out.
--
-- Bounds and fuel. The probe loops get `table_size + 1` rounds, and each round adds to a step
-- counter that ends the loop at `table_size`; the parsers run down the text; the digit loops get 20
-- rounds, since `2 ^ 64` has 20 digits. `_get_request_headers` adds a byte in each round and stops at
-- 8192; `send_data` counts at least one byte in each round. The theorems about these functions
-- include that they return. `print_local_addresses` gets any number of rounds, since it need not end.
--
-- Arrays that the code does not initialise are arguments too (`line_partition` of the request line),
-- and so is `bytes_sent` of `send_data`.
--
-- Not modelled: what stands in `bind_route` behind the line `if()`, which is not C; the route parser,
-- a stub; logging.
mod Prelude
pub mod Memory
pub mod StringTools
pub mod ErrorHandler
pub mod Configuration
pub mod Hash
pub mod ThreadHandler
pub mod ConnectionHandler
pub mod HostResolver
pub mod Orchestrator
pub mod DynamicRouter
pub mod HttpTypes
pub mod HttpHandler
mod Tests
