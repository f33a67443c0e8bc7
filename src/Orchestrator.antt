-- ===== src/Orchestrator.antt =====
-- services/orchestration/orchestrator/orchestrator.c, `init_thread_handler` and `free_thread_memory`
-- of thread_handler.c, and main.c: the boot, and the poll loop as the producer of the queue. What
-- the system calls return is an argument.
pub mod Threads
pub mod Events
pub mod Boot
pub mod Serving
