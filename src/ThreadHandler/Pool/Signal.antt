-- ===== src/ThreadHandler/Pool/Signal.antt =====
-- A signal that comes between the test of `num_connections` and `pthread_cond_wait`.
use orb_weaver.Prelude.{
  ℕ, ◌<◌, ◌≡◌, ◌≢◌, ◌⊎◌, inl, inr, refl, true, false, none, [], ◌∷◌, ◌++◌, arith, ok, to_int,
}
use orb_weaver.ThreadHandler.Pool.{
  found_empty, waiting, woken, polling, signalling, Pool, set_pc, Step, enter, enter_again,
  check_empty, check_task, wait, wake, pull, pull_failed, finish, enqueue, enqueue_failed, signal,
  signal_nobody, Steps, here, later,
}
use orb_weaver.ThreadHandler.Queue.Chain.{Cells, IsQueue}
use orb_weaver.ThreadHandler.Queue.Enqueue.{enqueue_task-append}
use orb_weaver.ThreadHandler.Queue.{Pointer, null, Queue, enqueue_task}

-- Either the thread wakes by itself, and nothing else changes; or another call of `enqueue_task`
-- returns, with a `NULL` or an unused address from `calloc`, and only the queue changes, and with
-- `true` also the history and the poll loop, which is then about to signal.
abbrev pub IsLuck : Pool → Pool → Type 0
IsLuck s u =
    (u ≡ record s { thread = set_pc s.thread 0 woken })
    ⊎ ((fresh : Pointer) × (client : ℕ) × (q : Queue) × ((fresh ≡ null)
          ⊎ (s.queue.heap fresh ≡ none))
        × (((enqueue_task fresh client s.queue ≡ ok (true, q))
              × (u ≡ record s {
                producer = signalling;
                queue = q;
                enqueued = s.enqueued ++ to_int client ∷ [];
              }))
            ⊎ ((enqueue_task fresh client s.queue ≡ ok (false, q)) × (u ≡ record s { queue = q }))))

Step-IsLuck : {s u : Pool} → Step 1 s u → s.thread 0 ≡ waiting → s.producer ≡ polling → IsLuck s u
Step-IsLuck (enter t b at free) sleeps idle = (let z : t ≡ 0 = omega arith in absurd (ground arith))
Step-IsLuck (enter_again t b at free) sleeps idle =
    (let z : t ≡ 0 = omega arith in absurd (ground arith))
Step-IsLuck (check_empty t b at e) sleeps idle =
    (let z : t ≡ 0 = omega arith in absurd (ground arith))
Step-IsLuck (check_task t b at e) sleeps idle =
    (let z : t ≡ 0 = omega arith in absurd (ground arith))
Step-IsLuck (wait t b at) sleeps idle = (let z : t ≡ 0 = omega arith in absurd (ground arith))
Step-IsLuck (wake t b at) sleeps idle = (let z : t ≡ 0 = omega arith in inl (rw z refl))
Step-IsLuck (pull t d q b at run) sleeps idle =
    (let z : t ≡ 0 = omega arith in absurd (ground arith))
Step-IsLuck (pull_failed t d q b at run) sleeps idle =
    (let z : t ≡ 0 = omega arith in absurd (ground arith))
Step-IsLuck (finish t d b at) sleeps idle = (let z : t ≡ 0 = omega arith in absurd (ground arith))
Step-IsLuck (enqueue fresh client q at new run) sleeps idle =
    inr (fresh, client, q, new, inl (run, refl))
Step-IsLuck (enqueue_failed fresh client q at new run) sleeps idle =
    inr (fresh, client, q, new, inr (run, refl))
Step-IsLuck (signal t b at waits) sleeps idle = absurd (ground arith)
Step-IsLuck (signal_nobody at none_waits) sleeps idle = absurd (ground arith)

-- In a pool of one thread, which has seen an empty queue and is about to wait, let the poll loop
-- enqueue a connection, with an unused address from `calloc`, signal, and the thread wait. Then the
-- connection stands in the queue while the thread sleeps, and every step from there either wakes the
-- thread without a signal and changes nothing else, or is the return of another call of
-- `enqueue_task`, which changes the queue and makes the poll loop signal if it is `true`.
pub lost_signal :
    (s : Pool) (cells : Cells) (fresh : Pointer) (client : ℕ)
    → s.thread 0 ≡ found_empty
    → s.producer ≡ polling
    → IsQueue s.queue cells
    → fresh ≢ null
    → s.queue.heap fresh ≡ none
    → (u : Pool) × Steps 1 s u
      × (u.thread 0 ≡ waiting)
      × IsQueue u.queue (cells ++ (fresh, to_int client) ∷ [])
      × ((v : Pool) → Step 1 u v → IsLuck u v)
lost_signal s cells fresh client at idle is ne unused =
    let (q, run, is') = enqueue_task-append s.queue cells fresh client is ne unused in
    let s₁ : Pool = record s {
      producer = signalling;
      queue = q;
      enqueued = s.enqueued ++ to_int client ∷ [];
    } in
    let s₂ : Pool = record s₁ { producer = polling } in
    let s₃ : Pool = record s₂ { thread = set_pc s.thread 0 waiting; thread_lock = none } in
    let not_waiting : (t : ℕ) → t < 1 → s.thread t ≢ waiting =
      λ t b e. (let z : t ≡ 0 = omega arith in ground arith) in
    (
      s₃,
      later
          (later (later here (enqueue fresh client q idle (inr unused) run))
            (signal_nobody refl not_waiting))
          (wait 0 (omega arith) at),
      refl,
      is',
      λ v step. Step-IsLuck step refl refl,
    )
