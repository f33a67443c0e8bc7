-- ===== src/Orchestrator/Threads/Ready.antt =====
-- `init_thread_handler` where it succeeds.
use mathlib.Core.Path.{subst}
use orb_weaver.ErrorHandler.{validate_syscall}
use orb_weaver.Orchestrator.Threads.Release.{creates, create_loop-fails}
use orb_weaver.Orchestrator.Threads.{
  allocated, Threads, free_threads, ThreadCalls, create_loop, init_thread_handler,
}
use orb_weaver.Prelude.{
  ℕ, pos, some, zero, suc, ◌+◌, ◌≡◌, refl, Bool, true, false, not, [], arith, ok, Ensures,
  Ensures-bind, Ensures-if, ◌==◌, ◌>>=◌, if◌then◌else◌, Bool-cases, inl, inr,
}
use orb_weaver.ThreadHandler.Queue.Chain.{IsQueue}
use orb_weaver.ThreadHandler.Queue.Steps.{init_queue-IsQueue}
use orb_weaver.ThreadHandler.Queue.{
  Pointer, null, Queue, init_queue, update, connection, queue_head,
}

create_loop-creates :
    (calls : ThreadCalls) (left cursor : ℕ) (t : Threads)
    → creates calls left cursor ≡ true
    → create_loop calls left cursor t ≡ ok (true, t)
unfolding create_loop
create_loop-creates calls zero cursor t h = refl
create_loop-creates calls (suc left) cursor t h =
    let created : validate_syscall (calls.create cursor) true ≡ true = ground arith in
    let set : calls.thread_id_set cursor ≡ true = ground arith in
    rw (created, set) (create_loop-creates calls left (cursor + 1) t (ground arith))

-- A run that returns `true` returns an empty queue.
abbrev Empties : Bool × Threads → Type 0
Empties r = r.0 ≡ true → IsQueue r.1.queue []

init_queue-null :
    (q : Queue) (fresh : Pointer)
    → (fresh == null) ≡ true
    → init_queue fresh q ≡ ok (false, record q { head = null })
unfolding init_queue
init_queue-null q fresh e = rw e

init_queue-Empties :
    (calls : ThreadCalls) (t : Threads)
    → t.queue.connections ≡ 0
    → Ensures Empties (do
      (made, queue') ← init_queue calls.head t.queue
      if not made
          then (do t'' ← free_threads (record t { queue = queue' }); ok (false, t''))
          else ok (true, record t { queue = queue' }))
init_queue-Empties calls t start = elim (Bool-cases (calls.head == null)) [
  | inl e ↦ rw (init_queue-null t.queue calls.head e) (
      Ensures-bind Empties (free_threads (record t { queue = record t.queue { head = null } })) _
        (λ t' _ h. absurd (ground arith)))
  | inr ne ↦
      let (q, run, is) = init_queue-IsQueue t.queue calls.head (ground arith) start in
      rw run (λ _. is)
]

init_thread_handler-Empties :
    (calls : ThreadCalls) (num_cores : ℕ) (t : Threads)
    → t.queue.connections ≡ 0
    → Ensures Empties (init_thread_handler calls num_cores t)
unfolding init_thread_handler
init_thread_handler-Empties calls num_cores t start =
    Ensures-if Empties (not (calls.thread_lock_init == 0)) _ _ (λ _ e. absurd (ground arith))
      (λ _.
        Ensures-if Empties (not (calls.enqueue_lock_init == 0)) _ _ (λ _ e. absurd (ground arith))
          (λ _.
            Ensures-if Empties (not (calls.cond_init == 0)) _ _ (λ _ e. absurd (ground arith))
              (λ _.
                Ensures-if Empties (not calls.threads_memory) _ _ (λ _ e. absurd (ground arith))
                  (λ _. elim (Bool-cases (creates calls num_cores 0)) [
                    | inl all ↦
                        rw
                          (create_loop-creates calls num_cores 0 (record t { threads = allocated })
                            all)
                          (init_queue-Empties calls (record t { threads = allocated }) start)
                    | inr fails ↦
                        rw
                          (create_loop-fails calls num_cores 0 (record t { threads = allocated })
                            refl fails)
                          (λ e. absurd (ground arith))
                  ]))))

-- Where `init_thread_handler` returns `true` with the counter at 0 before, the queue is empty.
pub init_thread_handler-IsQueue :
    (calls : ThreadCalls) (num_cores : ℕ) (t t' : Threads)
    → t.queue.connections ≡ 0
    → init_thread_handler calls num_cores t ≡ ok (true, t')
    → IsQueue t'.queue []
init_thread_handler-IsQueue calls num_cores t t' start run =
    subst (Ensures Empties) run (init_thread_handler-Empties calls num_cores t start) refl

-- What `init_thread_handler` leaves where all calls succeed.
abbrev pub set_up : ThreadCalls → Threads → Threads
set_up calls t = record {
  threads = allocated;
  queue = record t.queue {
    heap = update t.queue.heap calls.head (some (connection (pos 0) null null));
    head = calls.head;
    tail = queue_head;
  };
}

-- Where the locks and the block of the threads are set up, all threads are created and `calloc` gives
-- the placeholder, `init_thread_handler` returns `true` with the placeholder as the queue.
pub init_thread_handler-set_up :
    (calls : ThreadCalls) (num_cores : ℕ) (t : Threads)
    → calls.thread_lock_init ≡ 0
    → calls.enqueue_lock_init ≡ 0
    → calls.cond_init ≡ 0
    → calls.threads_memory ≡ true
    → creates calls num_cores 0 ≡ true
    → (calls.head == null) ≡ false
    → init_thread_handler calls num_cores t ≡ ok (true, set_up calls t)
unfolding init_thread_handler init_queue
init_thread_handler-set_up calls num_cores t first second third memory all head = rw (
  first,
  second,
  third,
  memory,
  create_loop-creates calls num_cores 0 (record t { threads = allocated }) all,
  head,
)
