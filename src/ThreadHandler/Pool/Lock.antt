-- ===== src/ThreadHandler/Pool/Lock.antt =====
-- Threads exclude each other between `pthread_mutex_lock` and `pthread_mutex_unlock`.
use orb_weaver.Prelude.{ℕ, ◌≡◌, Bool, true, false, some, arith}
use orb_weaver.ThreadHandler.Pool.{
  Pc, checking, found_empty, pulling, Pool, Step, enter, enter_again, check_empty, check_task, wait,
  wake, pull, pull_failed, finish, enqueue, enqueue_failed, signal, signal_nobody, Steps, here,
  later, started, IsReachable,
}
use orb_weaver.ThreadHandler.Queue.{Queue}

-- The thread has `thread_lock`.
abbrev pub in_section : Pc → Bool
in_section checking = true
in_section found_empty = true
in_section pulling = true
in_section _ = false

abbrev pub Locked : Pool → Type 0
Locked s = (i : ℕ) → in_section (s.thread i) ≡ true → s.thread_lock ≡ some i

Step-Locked : {n : ℕ} {s u : Pool} → Step n s u → Locked s → Locked u
Step-Locked (enter t b at free) h i in_i = grind (arith, h i)
Step-Locked (enter_again t b at free) h i in_i = grind (arith, h i)
Step-Locked (check_empty t b at z) h i in_i = grind (arith, h i, h t)
Step-Locked (check_task t b at z) h i in_i = grind (arith, h i, h t)
Step-Locked (wait t b at) h i in_i = grind (arith, h i, h t)
Step-Locked (wake t b at) h i in_i = grind (arith, h i)
Step-Locked (pull t d q b at run) h i in_i = grind (arith, h i, h t)
Step-Locked (pull_failed t d q b at run) h i in_i = grind (arith, h i, h t)
Step-Locked (finish t d b at) h i in_i = grind (arith, h i)
Step-Locked (enqueue fresh client q at new run) h i in_i = h i in_i
Step-Locked (enqueue_failed fresh client q at new run) h i in_i = h i in_i
Step-Locked (signal t b at waits) h i in_i = grind (arith, h i)
Step-Locked (signal_nobody at none_waits) h i in_i = h i in_i

pub Steps-Locked : {n : ℕ} {s u : Pool} → Steps n s u → Locked s → Locked u
Steps-Locked here h = h
Steps-Locked (later steps step) h = Step-Locked step (Steps-Locked steps h)

pub started-Locked : (q : Queue) → Locked (started q)
started-Locked q i in_i = absurd (ground arith)

IsReachable-Locked : {n : ℕ} {s : Pool} → IsReachable n s → Locked s
IsReachable-Locked (q, empty, steps) = Steps-Locked steps (started-Locked q)

-- In every state that the pool gets to, whatever the order of the steps, two threads that hold
-- `thread_lock` are the same one.
pub mutual_exclusion :
    {n : ℕ} {s : Pool}
    → IsReachable n s
    → (i j : ℕ) → in_section (s.thread i) ≡ true
    → in_section (s.thread j) ≡ true
    → i ≡ j
mutual_exclusion reach i j in_i in_j =
    let h = IsReachable-Locked reach in let one = h i in_i in let two = h j in_j in ground arith
