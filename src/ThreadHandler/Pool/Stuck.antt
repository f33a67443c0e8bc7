-- ===== src/ThreadHandler/Pool/Stuck.antt =====
-- The pool behind the pull of the first of just two tasks.
use mathlib.Core.Path.{subst}
use orb_weaver.Prelude.{
  fault, use_after_free, ℕ, ◌<◌, ◌≡◌, refl, sym, ◌∙◌, none, [], ◌∷◌, ◌++◌, arith, ℤ, pos, negsuc,
}
use orb_weaver.ThreadHandler.Pool.{
  pulling, processing, Pool, set_pc, Step, enter, enter_again, check_empty, check_task, wait, wake,
  pull, pull_failed, finish, enqueue, enqueue_failed, signal, signal_nobody, Steps, here, later,
}
use orb_weaver.ThreadHandler.Queue.Chain.{IsQueue}
use orb_weaver.ThreadHandler.Queue.Pull.{pull_next_task-cons}
use orb_weaver.ThreadHandler.Queue.Stale.{IsStale, enqueue_task-IsStale, pull_next_task-IsStale}
use orb_weaver.ThreadHandler.Queue.{Pointer, Queue, enqueue_task, pull_next_task}

-- The queue and the two histories are the same.
pub record Stays (s u : Pool) : Type 0 where
  pub queue : u.queue ≡ s.queue
  pub taken : u.taken ≡ s.taken
  pub enqueued : u.enqueued ≡ s.enqueued

-- On a stale queue a pull and an enqueue have no step.
Step-Stays :
    {n : ℕ} {s u : Pool} {b : Pointer} {e : ℤ}
    → Step n s u
    → IsStale s.queue ((b, e) ∷ [])
    → Stays s u
Step-Stays (enter t _ at free) stale = record { queue = refl; taken = refl; enqueued = refl }
Step-Stays (enter_again t _ at free) stale = record { queue = refl; taken = refl; enqueued = refl }
Step-Stays (check_empty t _ at z) stale = record { queue = refl; taken = refl; enqueued = refl }
Step-Stays (check_task t _ at z) stale = record { queue = refl; taken = refl; enqueued = refl }
Step-Stays (wait t _ at) stale = record { queue = refl; taken = refl; enqueued = refl }
Step-Stays (wake t _ at) stale = record { queue = refl; taken = refl; enqueued = refl }
Step-Stays {s} {b} {e} (pull t d q _ at run) stale =
    let stuck = pull_next_task-IsStale s.queue b e (negsuc 0) stale in absurd (ground arith)
Step-Stays {s} {b} {e} (pull_failed t d q _ at run) stale =
    let stuck = pull_next_task-IsStale s.queue b e (negsuc 0) stale in absurd (ground arith)
Step-Stays (finish t d _ at) stale = record { queue = refl; taken = refl; enqueued = refl }
Step-Stays {s} {b} {e} (enqueue fresh client q at new run) stale =
    let stuck = enqueue_task-IsStale s.queue ((b, e) ∷ []) fresh client stale in
    absurd (ground arith)
Step-Stays {s} {b} {e} (enqueue_failed fresh client q at new run) stale =
    let stuck = enqueue_task-IsStale s.queue ((b, e) ∷ []) fresh client stale in
    absurd (ground arith)
Step-Stays (signal t _ at waits) stale = record { queue = refl; taken = refl; enqueued = refl }
Step-Stays (signal_nobody at none_waits) stale = record {
  queue = refl;
  taken = refl;
  enqueued = refl;
}

Steps-Stays :
    {n : ℕ} {s u : Pool} {b : Pointer} {e : ℤ}
    → Steps n s u
    → IsStale s.queue ((b, e) ∷ [])
    → Stays s u
Steps-Stays here stale = record { queue = refl; taken = refl; enqueued = refl }
Steps-Stays {b} {e} (later steps step) stale =
    let past = Steps-Stays steps stale in
    let next = Step-Stays step (subst (λ q. IsStale q ((b, e) ∷ [])) (sym past.queue) stale) in
    record {
      queue = next.queue ∙ past.queue;
      taken = next.taken ∙ past.taken;
      enqueued = next.enqueued ∙ past.enqueued;
    }

-- The pool behind a pull of the descriptor `d`, which leaves the queue `q`.
abbrev pub behind_pull : Pool → ℕ → ℤ → Queue → Pool
behind_pull s t d q = record s {
  thread = set_pc s.thread t (processing d);
  thread_lock = none;
  queue = q;
  taken = s.taken ++ d ∷ [];
}

-- A thread that is about to pull from a queue of just two tasks, the first one with a descriptor
-- that is not negative, can take it, and the queue then counts one task. From there on, whatever
-- steps the threads and the poll loop take before, the next call of `_pull_next_task` and the next
-- call of `enqueue_task`, whatever `calloc` returns in it, read the node that was freed.
pub two_tasks-use_after_free :
    {n : ℕ} (s : Pool) (t : ℕ) (a b : Pointer) (d : ℕ) (e : ℤ)
    → t < n
    → s.thread t ≡ pulling
    → IsQueue s.queue ((a, pos d) ∷ (b, e) ∷ [])
    → (q : Queue) × (q.connections ≡ 1)
      × Step n s (behind_pull s t (pos d) q)
      × ((v : Pool)
          → Steps n (behind_pull s t (pos d) q) v
          → ((result : ℤ) → pull_next_task result v.queue ≡ fault use_after_free)
            × ((fresh : Pointer) (client : ℕ)
                → enqueue_task fresh client v.queue ≡ fault use_after_free))
two_tasks-use_after_free s t a b d e lt at is =
    let (q, run, gone, stale) = pull_next_task-cons s.queue a (pos d) ((b, e) ∷ []) (negsuc 0) is in
    (
      q,
      stale.counted,
      pull t (pos d) q lt at run,
      λ v steps.
          let past = Steps-Stays steps stale in
          let same : v.queue ≡ q = past.queue in
          (
            λ result. rw same (pull_next_task-IsStale q b e result stale),
            λ fresh client. rw same (enqueue_task-IsStale q ((b, e) ∷ []) fresh client stale),
          ),
    )
