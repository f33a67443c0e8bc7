-- ===== src/Tests/Pool.antt =====
-- A pool of one thread.
use orb_weaver.Prelude.{
  ℕ, ◌≡◌, ◌⊎◌, inr, refl, true, some, [], ◌∷◌, arith, ok, fault, use_after_free, ℤ, pos, negsuc,
  to_int,
}
use orb_weaver.Tests.Connections.{heap₀, queue₀, queue₂, queue₀-IsQueue, queue₂-IsQueue}
use orb_weaver.ThreadHandler.Pool.Lock.{mutual_exclusion}
use orb_weaver.ThreadHandler.Pool.Order.{IsReachable-pulling}
use orb_weaver.ThreadHandler.Pool.Release.{Releases, IsReachable-Releases}
use orb_weaver.ThreadHandler.Pool.Signal.{IsLuck, lost_signal}
use orb_weaver.ThreadHandler.Pool.Stuck.{behind_pull, two_tasks-use_after_free}
use orb_weaver.ThreadHandler.Pool.{
  outside, checking, found_empty, waiting, pulling, Pool, set_pc, Step, enter, check_task, enqueue,
  signal_nobody, Steps, here, later, started, IsReachable,
}
use orb_weaver.ThreadHandler.Queue.Chain.{IsQueue}
use orb_weaver.ThreadHandler.Queue.Pull.{answer}
use orb_weaver.ThreadHandler.Queue.{
  Pointer, null, connection, next_of, update, Queue, load, load_tail, enqueue_task, pull_next_task,
}

-- The connection 7 at address 2.
abbrev queue₁ : Queue
queue₁ = record {
  heap =
      update
        (update
          (update (update heap₀ 2 (some (connection (pos 0) null null))) 1
            (some (connection (pos 0) 2 null)))
          2 (some (connection (pos 0) null 1)))
        2 (some (connection (pos 7) null 1));
  head = 1;
  tail = next_of 1;
  connections = 1;
}

enqueued : enqueue_task 2 7 queue₀ ≡ ok (true, queue₁)
unfolding load load_tail enqueue_task to_int
enqueued = refl

seven : to_int 7 ≡ pos 7
unfolding to_int
seven = refl

-- The poll loop has enqueued 7 and signalled to nobody; the thread holds the lock and saw the task.
abbrev about_to_pull : Pool
about_to_pull = record (started queue₀) {
  thread = set_pc (set_pc (λ _. outside) 0 checking) 0 pulling;
  thread_lock = some 0;
  queue = queue₁;
  enqueued = to_int 7 ∷ [];
}

about_to_pull-IsReachable : IsReachable 1 about_to_pull
about_to_pull-IsReachable = (
  queue₀,
  queue₀-IsQueue,
  later
      (later
        (later (later here (enqueue 2 7 queue₁ refl (inr refl) enqueued))
          (signal_nobody refl (λ t b e. absurd (ground arith))))
        (enter 0 (omega arith) refl refl))
      (check_task 0 (omega arith) refl refl),
)

mutual_exclusion_example : ◌≡◌ {A = ℕ} 0 0
mutual_exclusion_example = mutual_exclusion about_to_pull-IsReachable 0 0 refl refl

IsReachable-pulling_example :
    ((d : ℤ) × (q : Queue) × (pull_next_task (negsuc 0) queue₁ ≡ ok (answer d, q)))
    ⊎ (pull_next_task (negsuc 0) queue₁ ≡ fault use_after_free)
IsReachable-pulling_example = IsReachable-pulling about_to_pull-IsReachable 0 refl (negsuc 0)

IsReachable-Releases_example : Releases 1 about_to_pull
IsReachable-Releases_example = IsReachable-Releases about_to_pull-IsReachable 0 refl

abbrev about_to_wait : Pool
about_to_wait = record (started queue₀) {
  thread = set_pc (λ _. outside) 0 found_empty;
  thread_lock = some 0;
}

lost_signal_example :
    (u : Pool) × Steps 1 about_to_wait u
    × (u.thread 0 ≡ waiting)
    × IsQueue u.queue ((2, to_int 7) ∷ [])
    × ((v : Pool) → Step 1 u v → IsLuck u v)
lost_signal_example = lost_signal about_to_wait [] 2 7 refl refl queue₀-IsQueue (ground arith) refl

-- The thread holds the lock and saw two tasks.
abbrev two_tasks : Pool
two_tasks = record (started queue₂) {
  thread = set_pc (λ _. outside) 0 pulling;
  thread_lock = some 0;
}

two_tasks-use_after_free_example :
    (q : Queue) × (q.connections ≡ 1)
    × Step 1 two_tasks (behind_pull two_tasks 0 (pos 7) q)
    × ((v : Pool)
        → Steps 1 (behind_pull two_tasks 0 (pos 7) q) v
        → ((result : ℤ) → pull_next_task result v.queue ≡ fault use_after_free)
          × ((fresh : Pointer) (client : ℕ)
              → enqueue_task fresh client v.queue ≡ fault use_after_free))
two_tasks-use_after_free_example =
    two_tasks-use_after_free two_tasks 0 2 3 7 (pos 9) (omega arith) refl queue₂-IsQueue
