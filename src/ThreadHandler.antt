-- ===== src/ThreadHandler.antt =====
-- services/orchestration/thread-handler/thread_handler.c: the queue of connections between the poll
-- loop and the worker threads, the pool of these threads, and how a worker receives a request.
pub mod Queue
pub mod Receive
pub mod Pool
