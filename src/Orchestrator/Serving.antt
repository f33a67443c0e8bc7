-- ===== src/Orchestrator/Serving.antt =====
-- The server at work: the poll loop of orchestrator.c, on top of what `start_processing` sets up, and
-- the threads of thread_handler.c, in any order. The body of the loop is one step up to the signal
-- at the end of `enqueue_task`; what `kevent` is called with is read by no thread.
pub mod Queued
pub mod InOrder
pub mod Accounts
use mathlib.Core.List.{append-nil}
use mathlib.Core.Path.{subst}
use orb_weaver.ErrorHandler.{validate_syscall}
use orb_weaver.Orchestrator.Boot.{no_threads}
use orb_weaver.Orchestrator.Events.InOrder.{is_connection}
use orb_weaver.Orchestrator.Events.{Change, add, Arrival, Server, process_data_event, process_event}
use orb_weaver.Orchestrator.Threads.Ready.{init_thread_handler-IsQueue}
use orb_weaver.Orchestrator.Threads.{Block, Threads, ThreadCalls, init_thread_handler}
use orb_weaver.Prelude.{
  ℕ, ◌≡◌, ◌≢◌, ◌⊎◌, inl, inr, refl, sym, ◌∙◌, ap, Bool, true, false, not, ◌&&◌, none, List, [], ◌∷◌,
  ◌++◌, map, arith, ok, ℤ, to_int, ◌==◌, if◌then◌else◌, Bool-cases,
}
use orb_weaver.ThreadHandler.Pool.Order.{IsReachable-in_order, Steps-Serves}
use orb_weaver.ThreadHandler.Pool.Tasks.{Holds, given}
use orb_weaver.ThreadHandler.Pool.{
  polling, signalling, Pool, Step, enqueue, enqueue_failed, Steps, here, later, started,
  IsReachable,
}
use orb_weaver.ThreadHandler.Queue.Chain.{Cells}
use orb_weaver.ThreadHandler.Queue.Pull.{pulled}
use orb_weaver.ThreadHandler.Queue.{Pointer, null, Queue, enqueue_task}

-- `block` is what `threads` points to.
pub record System : Type 0 where
  pub pool : Pool
  pub block : Block
  pub changes : List Change

-- What the poll loop sees.
abbrev pub server : System → Server
server s = record {
  threads = record { threads = s.block; queue = s.pool.queue };
  changes = s.changes;
}

-- The step is one of `enqueue_task`, which only an event makes.
abbrev pub is_enqueue : {n : ℕ} {s u : Pool} → Step n s u → Bool
is_enqueue (enqueue fresh client q at new run) = true
is_enqueue (enqueue_failed fresh client q at new run) = true
is_enqueue _ = false

-- The systems with `num_cores` threads that were given the arrivals, in this order.
pub data Served (kevent : Change → ℤ) (socket_descriptor : ℤ) (num_cores : ℕ)
    : List Arrival → System → Type 0 where
  booted :
      (calls : ThreadCalls) (t : Threads)
      → init_thread_handler calls num_cores no_threads ≡ ok (true, t)
      → validate_syscall (kevent (add socket_descriptor)) true ≡ true
      → Served kevent socket_descriptor num_cores [] (record {
        pool = started t.queue;
        block = t.threads;
        changes = add socket_descriptor ∷ [];
      })
  -- A thread moves on, or the poll loop signals.
  runs :
      {arrivals : List Arrival} {s : System} {u : Pool}
      → Served kevent socket_descriptor num_cores arrivals s
      → (step : Step num_cores s.pool u) → is_enqueue step ≡ false
      → Served kevent socket_descriptor num_cores arrivals (record s { pool = u })
  -- An event of the listening socket.
  connects :
      {arrivals : List Arrival} {s : System} (arrival : Arrival) (v : Server)
      → Served kevent socket_descriptor num_cores arrivals s
      → s.pool.producer ≡ polling
      → is_connection socket_descriptor arrival ≡ true
      → process_event kevent socket_descriptor arrival (server s) ≡ ok v
      → Served kevent socket_descriptor num_cores
          (arrivals ++ arrival ∷ [])
          (record s { pool = record s.pool { queue = v.threads.queue }; changes = v.changes })
  -- An event of a connection; `calloc` gives `NULL` or an unused address.
  sends :
      {arrivals : List Arrival} {s : System} (arrival : Arrival) (q : Queue) (v : Server)
      → Served kevent socket_descriptor num_cores arrivals s
      → s.pool.producer ≡ polling
      → (arrival.fresh ≡ null) ⊎ (s.pool.queue.heap arrival.fresh ≡ none)
      → is_connection socket_descriptor arrival ≡ false
      → enqueue_task arrival.fresh arrival.event.ident s.pool.queue ≡ ok (true, q)
      → process_event kevent socket_descriptor arrival (server s) ≡ ok v
      → Served kevent socket_descriptor num_cores (arrivals ++ arrival ∷ []) (record s {
        pool = record s.pool {
          producer = signalling;
          queue = v.threads.queue;
          enqueued = s.pool.enqueued ++ to_int arrival.event.ident ∷ [];
        };
        changes = v.changes;
      })
  -- The same, where `enqueue_task` fails.
  sends_in_vain :
      {arrivals : List Arrival} {s : System} (arrival : Arrival) (q : Queue) (v : Server)
      → Served kevent socket_descriptor num_cores arrivals s
      → s.pool.producer ≡ polling
      → (arrival.fresh ≡ null) ⊎ (s.pool.queue.heap arrival.fresh ≡ none)
      → is_connection socket_descriptor arrival ≡ false
      → enqueue_task arrival.fresh arrival.event.ident s.pool.queue ≡ ok (false, q)
      → process_event kevent socket_descriptor arrival (server s) ≡ ok v
      → Served kevent socket_descriptor num_cores
          (arrivals ++ arrival ∷ [])
          (record s { pool = record s.pool { queue = v.threads.queue }; changes = v.changes })
