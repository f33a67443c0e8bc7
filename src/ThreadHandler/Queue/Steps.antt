-- ===== src/ThreadHandler/Queue/Steps.antt =====
-- The queue at its start, and a run of it that fails.
use orb_weaver.Prelude.{
  ℕ, ◌≡◌, ◌≢◌, refl, true, some, [], ◌∷◌, arith, ℤ, pos, ==_ne, ok, fault, use_after_free,
}
use orb_weaver.ThreadHandler.Queue.Chain.{IsQueue}
use orb_weaver.ThreadHandler.Queue.Pull.{answer, pull_next_task-cons}
use orb_weaver.ThreadHandler.Queue.Stale.{enqueue_task-IsStale, pull_next_task-IsStale}
use orb_weaver.ThreadHandler.Queue.{
  Pointer, null, connection, queue_head, update, Queue, enqueue_task, pull_next_task, init_queue,
}

-- With a node from `calloc` and the counter at 0, the set-up leaves the empty queue.
pub init_queue-IsQueue :
    (q : Queue) (fresh : Pointer)
    → fresh ≢ null
    → q.connections ≡ 0
    → (q' : Queue) × (init_queue fresh q ≡ ok (true, q')) × IsQueue q' []
unfolding init_queue
init_queue-IsQueue q fresh ne start = (
  record {
    heap = update q.heap fresh (some (connection (pos 0) null null));
    head = fresh;
    tail = queue_head;
    connections = q.connections;
  },
  rw (==_ne fresh null ne),
  record { linked = (ground arith, ne, refl, tt); tail = refl; counted = start },
)

-- On a queue of just two connections a pull returns the first one; then neither the next enqueue,
-- whatever `calloc` returns, nor the next pull gets further than the node that was freed.
pub pull_next_task-use_after_free :
    (q : Queue) (a b : Pointer) (d e : ℤ) (result : ℤ)
    → IsQueue q ((a, d) ∷ (b, e) ∷ [])
    → (q' : Queue) × (pull_next_task result q ≡ ok (answer d, q'))
      × ((fresh : Pointer) (client : ℕ) → enqueue_task fresh client q' ≡ fault use_after_free)
      × ((result' : ℤ) → pull_next_task result' q' ≡ fault use_after_free)
pull_next_task-use_after_free q a b d e result is =
    let (q', run, gone, stale) = pull_next_task-cons q a d ((b, e) ∷ []) result is in
    (
      q',
      run,
      λ fresh client. enqueue_task-IsStale q' ((b, e) ∷ []) fresh client stale,
      λ result'. pull_next_task-IsStale q' b e result' stale,
    )
