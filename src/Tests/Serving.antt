-- ===== src/Tests/Serving.antt =====
-- A server of one thread from its set-up on: a connection, and a request on it.
use orb_weaver.ConnectionHandler.{accept_connection}
use orb_weaver.ErrorHandler.{validate_syscall}
use orb_weaver.Orchestrator.Boot.{no_threads}
use orb_weaver.Orchestrator.Events.{
  Change, add, add_dispatch, Arrival, process_connection_event, process_data_event, process_event,
}
use orb_weaver.Orchestrator.Serving.Accounts.{Served-accounts}
use orb_weaver.Orchestrator.Serving.InOrder.{Served-in_order}
use orb_weaver.Orchestrator.Serving.Queued.{queued}
use orb_weaver.Orchestrator.Serving.{System, server, Served, booted, runs, connects, sends}
use orb_weaver.Orchestrator.Threads.{
  allocated, Threads, ThreadCalls, free_threads, create_loop, init_thread_handler,
}
use orb_weaver.Prelude.{
  ◌≡◌, refl, inr, true, false, some, none, [], ◌∷◌, ◌++◌, map, arith, ok, ℤ, pos, negsuc, to_int,
  ◌%◌, ◌^◌, ◌+◌, int_equal,
}
use orb_weaver.ThreadHandler.Pool.Closed.{count, workers}
use orb_weaver.ThreadHandler.Pool.Tasks.{Holds, given}
use orb_weaver.ThreadHandler.Pool.{
  finish, polling, signalling, outside, checking, pulling, processing, set_pc, enter, check_task,
  pull, signal_nobody, started,
}
use orb_weaver.ThreadHandler.Queue.Chain.{Cells}
use orb_weaver.ThreadHandler.Queue.Pull.{pulled}
use orb_weaver.ThreadHandler.Queue.{
  null, connection, queue_head, next_of, update, Queue, load, load_tail, enqueue_task,
  pull_next_task, init_queue,
}

abbrev kevent : Change → ℤ
kevent c = pos 0

abbrev calls : ThreadCalls
calls = record {
  thread_lock_init = 0;
  enqueue_lock_init = 0;
  cond_init = 0;
  threads_memory = true;
  create = λ cursor. pos 0;
  thread_id_set = λ cursor. true;
  head = 1;
}

abbrev ready : Threads
ready = record {
  threads = allocated;
  queue = record {
    heap = update (λ _. none) 1 (some (connection (pos 0) null null));
    head = 1;
    tail = queue_head;
    connections = 0;
  };
}

boots : init_thread_handler calls 1 no_threads ≡ ok (true, ready)
unfolding init_thread_handler create_loop free_threads init_queue validate_syscall
boots = refl

abbrev at_start : System
at_start = record { pool = started ready.queue; block = allocated; changes = add (pos 5) ∷ [] }

-- The listening socket is 5; a new connection gets the descriptor 11, and then sends.
abbrev arrives : Arrival
arrives = record {
  event = record { ident = 5; eof = false };
  fresh = 6;
  accepted = pos 11;
  timeout_set = pos 0;
}

abbrev asks : Arrival
asks = record {
  event = record { ident = 11; eof = false };
  fresh = 4;
  accepted = pos 0;
  timeout_set = pos 0;
}

abbrev connected : System
connected = record at_start { changes = add (pos 5) ∷ add_dispatch (pos 11) ∷ [] }

connecting : process_event kevent (pos 5) arrives (server at_start) ≡ ok (server connected)
unfolding process_event process_connection_event to_int accept_connection validate_syscall
connecting = refl

abbrev queue₁ : Queue
queue₁ = record {
  heap =
      update
        (update
          (update (update ready.queue.heap 4 (some (connection (pos 0) null null))) 1
            (some (connection (pos 0) 4 null)))
          4 (some (connection (pos 0) null 1)))
        4 (some (connection (pos 11) null 1));
  head = 1;
  tail = next_of 1;
  connections = 1;
}

queueing : enqueue_task 4 11 ready.queue ≡ ok (true, queue₁)
unfolding enqueue_task load load_tail to_int
queueing = refl

abbrev asked : System
asked = record connected {
  pool = record connected.pool { producer = signalling; queue = queue₁; enqueued = to_int 11 ∷ [] };
}

asking :
    process_event kevent (pos 5) asks (server connected)
    ≡ ok (record {
      threads = record { threads = allocated; queue = queue₁ };
      changes = connected.changes;
    })
unfolding process_event process_data_event enqueue_task load load_tail to_int
asking = refl

abbrev queue₂ : Queue
queue₂ = record {
  heap = update (update queue₁.heap 1 (some (connection (pos 0) null null))) 4 none;
  head = 1;
  tail = queue_head;
  connections = (1 + 4294967295) % 2 ^ 32;
}

abbrev taken : System
taken = record asked {
  pool = record asked.pool {
    thread = set_pc (set_pc (set_pc (λ _. outside) 0 checking) 0 pulling) 0 (processing (pos 11));
    producer = polling;
    queue = queue₂;
    taken = pos 11 ∷ [];
  };
}

apart : int_equal (to_int 11) (pos 5) ≡ false
unfolding to_int
apart = refl

-- The request waits in the queue, and the poll loop is about to signal.
asked-Served : Served kevent (pos 5) 1 (arrives ∷ asks ∷ []) asked
unfolding validate_syscall to_int
asked-Served =
    sends asks queue₁ _ (connects arrives _ (booted calls ready boots refl) refl refl connecting)
      refl (inr refl) apart queueing asking

-- Nobody waits for the signal; the thread takes the request.
pulling_eleven : pull_next_task (negsuc 0) queue₁ ≡ ok ((true, pos 11), queue₂)
unfolding load load_tail pull_next_task
pulling_eleven = refl

taken-Served : Served kevent (pos 5) 1 (arrives ∷ asks ∷ []) taken
taken-Served =
    runs
      (runs
        (runs (runs asked-Served (signal_nobody refl (λ t b e. absurd (ground arith))) refl)
          (enter 0 (omega arith) refl refl) refl)
        (check_task 0 (omega arith) refl refl) refl)
      (pull 0 (pos 11) queue₂ (omega arith) refl pulling_eleven) refl

Served-in_order_example :
    (cells : Cells) × Holds queue₂ cells
    × (map pulled (queued (pos 5) (arrives ∷ asks ∷ [])) ≡ (pos 11 ∷ []) ++ map given cells)
Served-in_order_example = Served-in_order taken-Served

-- Then it closes the connection.
abbrev closed : System
closed = record taken {
  pool = record taken.pool { thread = set_pc taken.pool.thread 0 outside; closed = pos 11 ∷ [] };
}

closed-Served : Served kevent (pos 5) 1 (arrives ∷ asks ∷ []) closed
closed-Served = runs taken-Served (finish 0 (pos 11) (omega arith) refl) refl

Served-accounts_example :
    (cells : Cells) × Holds queue₂ cells
    × (count (pos 11) (pos 11 ∷ [])
          + workers (pos 11) 1 closed.pool.thread
          + count (pos 11) (map given cells)
        ≡ count (pos 11) (map pulled (queued (pos 5) (arrives ∷ asks ∷ []))))
Served-accounts_example = Served-accounts closed-Served (ground arith)
