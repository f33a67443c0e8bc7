-- ===== src/ThreadHandler/Pool.antt =====
-- `thread_runner` on the threads of the pool, and `enqueue_task` on the thread of the poll loop, in
-- any order. What runs with `enqueue_lock` held is one step, and so is the test of `num_connections`.
pub mod Lock
pub mod Tasks
pub mod Order
pub mod Signal
pub mod Release
pub mod Closed
pub mod Stuck
use orb_weaver.Prelude.{
  ℕ, ◌<◌, ◌≡◌, ◌≢◌, ◌⊎◌, Bool, true, false, Option, none, some, List, [], ◌∷◌, ◌++◌, ok, ℤ, pos,
  negsuc, to_int, ◌==◌, if◌then◌else◌,
}
use orb_weaver.ThreadHandler.Queue.Chain.{IsQueue}
use orb_weaver.ThreadHandler.Queue.{Pointer, null, Queue, enqueue_task, pull_next_task}

-- Where a thread stands in `thread_runner`.
pub data Pc : Type 0 where
  outside : Pc  -- before `pthread_mutex_lock`
  checking : Pc  -- before the test of `num_connections`
  found_empty : Pc  -- before `pthread_cond_wait`
  waiting : Pc  -- in `pthread_cond_wait`
  woken : Pc  -- in `pthread_cond_wait`, about to take `thread_lock` again
  pulling : Pc  -- before `_pull_next_task`
  processing : (socket_descriptor : ℤ) → Pc  -- in `_process_request`

-- The poll loop holds no task, or is about to signal.
pub data Producer : Type 0 where
  polling signalling : Producer

-- `closed` lists the descriptors that threads closed. `enqueued` and `taken` are histories of the
-- descriptors that went into the queue and came out of it; no step reads them.
pub record Pool : Type 0 where
  pub thread : ℕ → Pc
  pub thread_lock : Option ℕ
  pub producer : Producer
  pub queue : Queue
  pub closed : List ℤ
  pub enqueued : List ℤ
  pub taken : List ℤ

abbrev pub set_pc : (ℕ → Pc) → ℕ → Pc → ℕ → Pc
set_pc thread t pc i = if i == t then pc else thread i

-- `if(socket_descriptor != -1) close(socket_descriptor);`
abbrev pub close_descriptor : ℤ → List ℤ → List ℤ
close_descriptor (negsuc n) closed = if n == 0 then closed else closed ++ negsuc n ∷ []
close_descriptor (pos n) closed = closed ++ pos n ∷ []

-- The steps of the threads below `num_cores`, and of the poll loop. A fault has no step.
pub data Step (num_cores : ℕ) (s : Pool) : Pool → Type 0 where
  enter :
      (t : ℕ)
      → t < num_cores
      → s.thread t ≡ outside
      → s.thread_lock ≡ none
      → Step num_cores s (record s { thread = set_pc s.thread t checking; thread_lock = some t })
  enter_again :
      (t : ℕ)
      → t < num_cores
      → s.thread t ≡ woken
      → s.thread_lock ≡ none
      → Step num_cores s (record s { thread = set_pc s.thread t checking; thread_lock = some t })
  check_empty :
      (t : ℕ)
      → t < num_cores
      → s.thread t ≡ checking
      → (s.queue.connections == 0) ≡ true
      → Step num_cores s (record s { thread = set_pc s.thread t found_empty })
  check_task :
      (t : ℕ)
      → t < num_cores
      → s.thread t ≡ checking
      → (s.queue.connections == 0) ≡ false
      → Step num_cores s (record s { thread = set_pc s.thread t pulling })
  wait :
      (t : ℕ)
      → t < num_cores
      → s.thread t ≡ found_empty
      → Step num_cores s (record s { thread = set_pc s.thread t waiting; thread_lock = none })
  -- `pthread_cond_wait` may end without a signal.
  wake :
      (t : ℕ)
      → t < num_cores
      → s.thread t ≡ waiting
      → Step num_cores s (record s { thread = set_pc s.thread t woken })
  pull :
      (t : ℕ) (d : ℤ) (q : Queue)
      → t < num_cores
      → s.thread t ≡ pulling
      → pull_next_task (negsuc 0) s.queue ≡ ok ((true, d), q)
      → Step num_cores s (record s {
        thread = set_pc s.thread t (processing d);
        thread_lock = none;
        queue = q;
        taken = s.taken ++ d ∷ [];
      })
  pull_failed :
      (t : ℕ) (d : ℤ) (q : Queue)
      → t < num_cores
      → s.thread t ≡ pulling
      → pull_next_task (negsuc 0) s.queue ≡ ok ((false, d), q)
      → Step num_cores s (record s {
        thread = set_pc s.thread t outside;
        thread_lock = none;
        queue = q;
        closed = close_descriptor d s.closed;
        taken = s.taken ++ d ∷ [];
      })
  -- Whatever `_process_request` returns.
  finish :
      (t : ℕ) (d : ℤ)
      → t < num_cores
      → s.thread t ≡ processing d
      → Step num_cores s
          (record s { thread = set_pc s.thread t outside; closed = close_descriptor d s.closed })
  -- `calloc` gives `NULL` or an unused address.
  enqueue :
      (fresh : Pointer) (client : ℕ) (q : Queue)
      → s.producer ≡ polling
      → (fresh ≡ null) ⊎ (s.queue.heap fresh ≡ none)
      → enqueue_task fresh client s.queue ≡ ok (true, q)
      → Step num_cores s (record s {
        producer = signalling;
        queue = q;
        enqueued = s.enqueued ++ to_int client ∷ [];
      })
  enqueue_failed :
      (fresh : Pointer) (client : ℕ) (q : Queue)
      → s.producer ≡ polling
      → (fresh ≡ null) ⊎ (s.queue.heap fresh ≡ none)
      → enqueue_task fresh client s.queue ≡ ok (false, q)
      → Step num_cores s (record s { queue = q })
  signal :
      (t : ℕ)
      → t < num_cores
      → s.producer ≡ signalling
      → s.thread t ≡ waiting
      → Step num_cores s (record s { thread = set_pc s.thread t woken; producer = polling })
  signal_nobody :
      s.producer ≡ signalling
      → ((t : ℕ) → t < num_cores → s.thread t ≢ waiting)
      → Step num_cores s (record s { producer = polling })

pub data Steps (num_cores : ℕ) (s : Pool) : Pool → Type 0 where
  here : Steps num_cores s s
  later : {u v : Pool} → Steps num_cores s u → Step num_cores u v → Steps num_cores s v

-- Behind `init_thread_handler`: no thread has got to `pthread_mutex_lock`, and the queue is empty.
abbrev pub started : Queue → Pool
started q = record {
  thread = λ _. outside;
  thread_lock = none;
  producer = polling;
  queue = q;
  closed = [];
  enqueued = [];
  taken = [];
}

-- The pools that `num_cores` threads and the poll loop get to.
abbrev pub IsReachable : ℕ → Pool → Type 0
IsReachable num_cores s = (q : Queue) × IsQueue q [] × Steps num_cores (started q) s
