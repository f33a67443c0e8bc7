-- ===== src/ThreadHandler/Pool/Release.antt =====
-- The thread that holds `thread_lock` gives it back.
use orb_weaver.Prelude.{
  ℕ, ◌<◌, ◌≡◌, ◌⊎◌, inl, inr, refl, Bool, true, false, none, some, arith, ok, fault, use_after_free,
  ℤ, negsuc, ◌==◌, Bool-cases,
}
use orb_weaver.ThreadHandler.Pool.Lock.{in_section}
use orb_weaver.ThreadHandler.Pool.Order.{IsReachable-pulling}
use orb_weaver.ThreadHandler.Pool.{
  Pc, checking, found_empty, pulling, Pool, Step, enter, enter_again, check_empty, check_task, wait,
  wake, pull, pull_failed, finish, enqueue, enqueue_failed, signal, signal_nobody, Steps, here,
  later, started, IsReachable,
}
use orb_weaver.ThreadHandler.Queue.Pull.{answer}
use orb_weaver.ThreadHandler.Queue.{Queue, pull_next_task}

-- Who holds the lock is one of the threads, and between taking it and giving it back.
abbrev Owned : ℕ → Pool → Type 0
Owned n s = (i : ℕ) → s.thread_lock ≡ some i → (i < n) × (in_section (s.thread i) ≡ true)

Step-Owned : {n : ℕ} {s u : Pool} → Step n s u → Owned n s → Owned n u
Step-Owned (enter t b at free) h i held = grind (arith, h i)
Step-Owned (enter_again t b at free) h i held = grind (arith, h i)
Step-Owned (check_empty t b at z) h i held = grind (arith, h i)
Step-Owned (check_task t b at z) h i held = grind (arith, h i)
Step-Owned (wait t b at) h i held = grind (arith, h i)
Step-Owned (wake t b at) h i held = grind (arith, h i)
Step-Owned (pull t d q b at run) h i held = grind (arith, h i)
Step-Owned (pull_failed t d q b at run) h i held = grind (arith, h i)
Step-Owned (finish t d b at) h i held = grind (arith, h i)
Step-Owned (enqueue fresh client q at new run) h i held = h i held
Step-Owned (enqueue_failed fresh client q at new run) h i held = h i held
Step-Owned (signal t b at waits) h i held = grind (arith, h i)
Step-Owned (signal_nobody at none_waits) h i held = h i held

Steps-Owned : {n : ℕ} {q : Queue} {u : Pool} → Steps n (started q) u → Owned n u
Steps-Owned here i held = absurd (ground arith)
Steps-Owned (later steps step) i held = Step-Owned step (Steps-Owned steps) i held

-- From `s`, steps of the pool release the lock, or `_pull_next_task` fails on the queue of `s`.
abbrev pub Releases : ℕ → Pool → Type 0
Releases n s =
    ((u : Pool) × Steps n s u × (u.thread_lock ≡ none))
    ⊎ (pull_next_task (negsuc 0) s.queue ≡ fault use_after_free)

first : {n : ℕ} {s u v : Pool} → Step n s u → Steps n u v → Steps n s v
first step here = later here step
first step (later steps last) = later (first step steps) last

module _ {n : ℕ} (i : ℕ) (b : i < n) where
  pulling-Releases : {s : Pool} → IsReachable n s → s.thread i ≡ pulling → Releases n s
  pulling-Releases {s} reach at = elim (IsReachable-pulling reach i at (negsuc 0)) [
    | inr stuck ↦ inr stuck
    | inl (d, q, run) ↦ pulled_off (answer d) q run
  ]
    where
      pulled_off :
          (r : Bool × ℤ) (q : Queue) → pull_next_task (negsuc 0) s.queue ≡ ok (r, q) → Releases n s
      pulled_off (true, d) q run = inl (_, later here (pull i d q b at run), refl)
      pulled_off (false, d) q run = inl (_, later here (pull_failed i d q b at run), refl)

  found_empty-Releases : {s : Pool} → s.thread i ≡ found_empty → Releases n s
  found_empty-Releases at = inl (_, later here (wait i b at), refl)

  before-Releases : {s u : Pool} → Step n s u → u.queue ≡ s.queue → Releases n u → Releases n s
  before-Releases step same (inl (v, steps, free)) = inl (v, first step steps, free)
  before-Releases step same (inr stuck) = inr (rw same at stuck)

  checking-Releases : {s : Pool} → IsReachable n s → s.thread i ≡ checking → Releases n s
  checking-Releases {s} (q, empty, steps) at = elim (Bool-cases (s.queue.connections == 0)) [
    | inl z ↦ before-Releases (check_empty i b at z) refl (found_empty-Releases (ground arith))
    | inr z ↦
        before-Releases (check_task i b at z) refl
          (pulling-Releases (q, empty, later steps (check_task i b at z)) (ground arith))
  ]

-- In every state that the pool gets to, if a thread holds `thread_lock`, then steps of the pool
-- release it, unless `_pull_next_task` would run into a `queue_tail` inside a node that was freed.
pub IsReachable-Releases :
    {n : ℕ} {s : Pool} → IsReachable n s → (i : ℕ) → s.thread_lock ≡ some i → Releases n s
IsReachable-Releases {n} {s} reach i held =
    let (b, in_i) = Steps-Owned reach.2 i held in holder (s.thread i) refl b in_i
  where
    holder : (pc : Pc) → s.thread i ≡ pc → i < n → in_section pc ≡ true → Releases n s
    holder checking at b in_i = checking-Releases i b reach at
    holder found_empty at b in_i = found_empty-Releases i b at
    holder pulling at b in_i = pulling-Releases i b reach at
    holder _ at b in_i = absurd (ground arith)
