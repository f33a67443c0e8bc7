-- ===== src/ThreadHandler/Pool/Closed.antt =====
-- The descriptors that the threads close.
use orb_weaver.Prelude.{
  ℕ, zero, suc, ◌+◌, ◌≤◌, ◌<◌, ◌≡◌, ◌≢◌, refl, ap, List, [], ◌∷◌, ◌++◌, arith, ℤ, pos, negsuc,
  int_equal, int_equal_iff, if◌then◌else◌,
}
use orb_weaver.ThreadHandler.Pool.{
  Pc, outside, checking, found_empty, waiting, woken, pulling, processing, Pool, set_pc,
  close_descriptor, Step, enter, enter_again, check_empty, check_task, wait, wake, pull,
  pull_failed, finish, enqueue, enqueue_failed, signal, signal_nobody, Steps, here, later, started,
  IsReachable,
}
use orb_weaver.ThreadHandler.Queue.{Queue}

-- How often a list holds the descriptor `d`.
unfoldable pub count : ℤ → List ℤ → ℕ
count d [] = 0
count d (e ∷ list) = (if int_equal e d then 1 else 0) + count d list

pub count-append : (d : ℤ) (xs ys : List ℤ) → count d (xs ++ ys) ≡ count d xs + count d ys
unfolding count
count-append d [] ys = omega arith
count-append d (x ∷ xs) ys = omega (arith, count-append d xs ys)

abbrev pub works_on : ℤ → Pc → ℕ
works_on d (processing e) = if int_equal e d then 1 else 0
works_on d _ = 0

-- How many of the first `n` threads process the descriptor `d`.
unfoldable pub workers : ℤ → ℕ → (ℕ → Pc) → ℕ
workers d zero thread = 0
workers d (suc n) thread = workers d n thread + works_on d (thread n)

workers-set_pc_above :
    (d : ℤ) (n : ℕ) (thread : ℕ → Pc) (t : ℕ) (pc : Pc)
    → n ≤ t
    → workers d n (set_pc thread t pc) ≡ workers d n thread
unfolding workers
workers-set_pc_above d zero thread t pc h = refl
workers-set_pc_above d (suc n) thread t pc h = ground (arith, workers-set_pc_above d n thread t pc)

workers-set_pc :
    (d : ℤ) (n : ℕ) (thread : ℕ → Pc) (t : ℕ) (pc : Pc)
    → t < n
    → workers d n (set_pc thread t pc) + works_on d (thread t) ≡ workers d n thread + works_on d pc
unfolding workers
workers-set_pc d zero thread t pc h = absurd (omega arith)
workers-set_pc d (suc n) thread t pc h =
    ground (arith, workers-set_pc d n thread t pc, workers-set_pc_above d n thread t pc)

count-close_descriptor :
    (d e : ℤ) (closed : List ℤ)
    → d ≢ negsuc 0
    → count d (close_descriptor e closed) ≡ count d closed + (if int_equal e d then 1 else 0)
unfolding count
count-close_descriptor d (pos n) closed ne = omega (arith, count-append d closed (pos n ∷ []))
count-close_descriptor d (negsuc n) closed ne =
    ground (arith, count-append d closed (negsuc n ∷ []), int_equal_iff (negsuc n) d)

-- `d` was taken as often as it was closed or is being processed.
abbrev pub Closes : ℤ → ℕ → Pool → Type 0
Closes d n s = count d s.closed + workers d n s.thread ≡ count d s.taken

count-snoc :
    (d e : ℤ) (taken : List ℤ)
    → count d (taken ++ e ∷ []) ≡ count d taken + (if int_equal e d then 1 else 0)
unfolding count
count-snoc d e taken = omega (arith, count-append d taken (e ∷ []))

moved-Closes :
    (d : ℤ) (n : ℕ) (s : Pool) (t : ℕ) (before after : Pc)
    → t < n
    → s.thread t ≡ before
    → works_on d before ≡ works_on d after
    → Closes d n s
    → count d s.closed + workers d n (set_pc s.thread t after) ≡ count d s.taken
moved-Closes d n s t before after lt at same h =
    let w = workers-set_pc d n s.thread t after lt in
    let e : works_on d (s.thread t) ≡ works_on d before = ap (works_on d) at in omega arith

Step-Closes : {d : ℤ} {n : ℕ} {s u : Pool} → d ≢ negsuc 0 → Step n s u → Closes d n s → Closes d n u
Step-Closes {d} {n} {s} ne (enter t b at free) h = moved-Closes d n s t outside checking b at refl h
Step-Closes {d} {n} {s} ne (enter_again t b at free) h =
    moved-Closes d n s t woken checking b at refl h
Step-Closes {d} {n} {s} ne (check_empty t b at z) h =
    moved-Closes d n s t checking found_empty b at refl h
Step-Closes {d} {n} {s} ne (check_task t b at z) h =
    moved-Closes d n s t checking pulling b at refl h
Step-Closes {d} {n} {s} ne (wait t b at) h = moved-Closes d n s t found_empty waiting b at refl h
Step-Closes {d} {n} {s} ne (wake t b at) h = moved-Closes d n s t waiting woken b at refl h
Step-Closes {d} {n} {s} ne (pull t e q b at run) h =
    let w = workers-set_pc d n s.thread t (processing e) b in
    let idle : works_on d (s.thread t) ≡ 0 = ap (works_on d) at in
    omega (arith, count-snoc d e s.taken)
Step-Closes {d} {n} {s} ne (pull_failed t e q b at run) h =
    let closed = count-close_descriptor d e s.closed ne in
    let moved = moved-Closes d n s t pulling outside b at refl h in
    omega (arith, count-snoc d e s.taken)
Step-Closes {d} {n} {s} ne (finish t e b at) h =
    let w = workers-set_pc d n s.thread t outside b in
    let busy : works_on d (s.thread t) ≡ works_on d (processing e) = ap (works_on d) at in
    omega (arith, count-close_descriptor d e s.closed ne)
Step-Closes ne (enqueue fresh client q at new run) h = h
Step-Closes ne (enqueue_failed fresh client q at new run) h = h
Step-Closes {d} {n} {s} ne (signal t b at waits) h =
    moved-Closes d n s t waiting woken b waits refl h
Step-Closes ne (signal_nobody at none_waits) h = h

workers-outside : (d : ℤ) (n : ℕ) → workers d n (λ _. outside) ≡ 0
unfolding workers
workers-outside d zero = refl
workers-outside d (suc n) = omega (arith, workers-outside d n)

Steps-Closes :
    {d : ℤ} {n : ℕ} {q : Queue} {u : Pool} → d ≢ negsuc 0 → Steps n (started q) u → Closes d n u
unfolding count
Steps-Closes {d} {n} ne here = omega (arith, workers-outside d n)
Steps-Closes ne (later steps step) = Step-Closes ne step (Steps-Closes ne steps)

-- In every state that the pool gets to, a descriptor other than -1 was closed exactly as often as it
-- was taken out of the queue, but for the threads that process it at that moment, each of which
-- still has one close ahead.
pub IsReachable-closed :
    {n : ℕ} {s : Pool} {d : ℤ}
    → IsReachable n s
    → d ≢ negsuc 0
    → count d s.closed + workers d n s.thread ≡ count d s.taken
IsReachable-closed (q, empty, steps) ne = Steps-Closes ne steps
