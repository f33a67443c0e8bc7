-- ===== src/Orchestrator/Threads.antt =====
-- `init_thread_handler` and `free_thread_memory`: the block of the threads, and the queue.
pub mod Ready
pub mod Release
use orb_weaver.ErrorHandler.{validate_syscall}
use orb_weaver.Prelude.{
  ℕ, zero, suc, ◌+◌, Bool, true, false, not, none, some, Run, ok, fault, invalid_free, ◌>>=◌, ℤ,
  ◌==◌, if◌then◌else◌,
}
use orb_weaver.ThreadHandler.Queue.{Pointer, null, Queue, update, init_queue}

-- The block that `threads` points to, if any.
pub data Block : Type 0 where
  no_block allocated freed : Block

pub record Threads : Type 0 where
  pub threads : Block
  pub queue : Queue

-- `if(threads != NULL) free(threads);`
unfoldable pub free_threads : Threads → Run Threads
free_threads t = elim t.threads [
  | no_block ↦ ok t
  | allocated ↦ ok (record t { threads = freed })
  | freed ↦ fault invalid_free
]

unfoldable pub free_thread_memory : Threads → Run (Bool × Threads)
unfolding free_threads
free_thread_memory t = do
  t' ← free_threads t
  if t'.queue.head == null then ok (true, t') else elim (t'.queue.heap t'.queue.head) [
    | none ↦ fault invalid_free
    | some c ↦ ok (
      true,
      record t' { queue = record t'.queue { heap = update t'.queue.heap t'.queue.head none } },
    )
  ]

-- `init_returns` is what the two `pthread_mutex_init` and `pthread_cond_init` return,
-- `threads_memory` whether `calloc` gives the threads, `create` what `pthread_create` returns for a
-- thread, `thread_id_set` whether it wrote the id, and `head` the node that `calloc` gives.
pub record ThreadCalls : Type 0 where
  pub thread_lock_init : ℕ
  pub enqueue_lock_init : ℕ
  pub cond_init : ℕ
  pub threads_memory : Bool
  pub create : ℕ → ℤ
  pub thread_id_set : ℕ → Bool
  pub head : Pointer

-- The loop, for the `left` threads from `cursor` on.
unfoldable pub create_loop : ThreadCalls → ℕ → ℕ → Threads → Run (Bool × Threads)
unfolding free_threads
create_loop calls zero cursor t = ok (true, t)
create_loop calls (suc left) cursor t =
    let rest = create_loop calls left (cursor + 1) t in
    if not (validate_syscall (calls.create cursor) true)
    then (do t' ← free_threads t; ok (false, t'))
    else if not (calls.thread_id_set cursor)
    then (do t' ← free_threads t; ok (false, t'))
    else rest

unfoldable pub init_thread_handler : ThreadCalls → ℕ → Threads → Run (Bool × Threads)
unfolding free_threads create_loop init_queue
init_thread_handler calls num_cores t =
    if not (calls.thread_lock_init == 0)
    then ok (false, t)
    else if not (calls.enqueue_lock_init == 0)
    then ok (false, t)
    else if not (calls.cond_init == 0)
    then ok (false, t)
    else if not calls.threads_memory
    then ok (false, record t { threads = no_block })
    else do
      (created, t') ← create_loop calls num_cores 0 (record t { threads = allocated })
      if not created then ok (false, t') else do
        (made, queue') ← init_queue calls.head t'.queue
        if not made
            then (do t'' ← free_threads (record t' { queue = queue' }); ok (false, t''))
            else ok (true, record t' { queue = queue' })
