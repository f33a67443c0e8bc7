-- ===== src/ThreadHandler/Pool/Order.antt =====
-- The threads get the connections in the order in which the poll loop gave them.
use mathlib.Core.List.{append_assoc, map-append}
use orb_weaver.Prelude.{
  ℕ, ◌≡◌, ◌⊎◌, inl, inr, refl, sym, ◌∙◌, ap, true, false, List, [], ◌∷◌, ◌++◌, map, arith, ok,
  fault, use_after_free, ℤ, to_int, ◌==◌,
}
use orb_weaver.ThreadHandler.Pool.Lock.{Locked, Steps-Locked, started-Locked}
use orb_weaver.ThreadHandler.Pool.Tasks.{
  Holds, given, has_task, pull-Holds, enqueue-Holds, refused-Holds,
}
use orb_weaver.ThreadHandler.Pool.{
  pulling, Pool, Step, enter, enter_again, check_empty, check_task, wait, wake, pull, pull_failed,
  finish, enqueue, enqueue_failed, signal, signal_nobody, Steps, here, later, started, IsReachable,
}
use orb_weaver.ThreadHandler.Queue.Chain.{Cells, IsQueue}
use orb_weaver.ThreadHandler.Queue.Pull.{pulled, answer, pull_next_task-cons}
use orb_weaver.ThreadHandler.Queue.Stale.{pull_next_task-IsStale}
use orb_weaver.ThreadHandler.Queue.{Pointer, Queue, pull_next_task}

-- `cells` wait in the queue; what was enqueued was taken, in order, or is one of them.
pub record Serves (s : Pool) (cells : Cells) : Type 0 where
  pub holds : Holds s.queue cells
  pub busy : (i : ℕ) → s.thread i ≡ pulling → has_task cells ≡ true
  pub in_order : map pulled s.enqueued ≡ s.taken ++ map given cells

counted-has_task :
    (q : Queue) (cells : Cells)
    → Holds q cells
    → (q.connections == 0) ≡ false
    → has_task cells ≡ true
counted-has_task q [] (inl is) more = let c = is.counted in absurd (ground arith)
counted-has_task q [] (inr (a, d, single, stale)) more = absurd (ground arith)
counted-has_task q (x ∷ cells) h more = refl

taken_step :
    (enqueued taken : List ℤ) (cells rest : Cells) (x : Pointer × ℤ) (d : ℤ)
    → map pulled enqueued ≡ taken ++ map given cells
    → cells ≡ x ∷ rest
    → d ≡ given x
    → map pulled enqueued ≡ (taken ++ d ∷ []) ++ map given rest
taken_step enqueued taken cells rest x d order e same =
    order
    ∙ ap (λ c. taken ++ map given c) e
    ∙ ap (λ z. taken ++ z ∷ map given rest) (sym same)
    ∙ sym (append_assoc taken (d ∷ []) (map given rest))

enqueued_step :
    (enqueued taken : List ℤ) (cells : Cells) (fresh : Pointer) (d : ℤ)
    → map pulled enqueued ≡ taken ++ map given cells
    → map pulled (enqueued ++ d ∷ []) ≡ taken ++ map given (cells ++ (fresh, d) ∷ [])
enqueued_step enqueued taken cells fresh d order =
    map-append pulled enqueued (d ∷ [])
    ∙ ap (◌++ pulled d ∷ []) order
    ∙ append_assoc taken (map given cells) (pulled d ∷ [])
    ∙ ap (taken ++◌) (sym (map-append given cells ((fresh, d) ∷ [])))

has_task-append : (cells : Cells) (x : Pointer × ℤ) → has_task (cells ++ x ∷ []) ≡ true
has_task-append [] x = refl
has_task-append (y ∷ cells) x = refl

pub Step-Serves :
    {n : ℕ} {s u : Pool} {cells : Cells}
    → Step n s u
    → Locked s
    → Serves s cells
    → (cells' : Cells) × Serves u cells'
Step-Serves {cells} (enter t b at free) lock h = (
  cells,
  record { holds = h.holds; busy = λ i p. grind (arith, h.busy i); in_order = h.in_order },
)
Step-Serves {cells} (enter_again t b at free) lock h = (
  cells,
  record { holds = h.holds; busy = λ i p. grind (arith, h.busy i); in_order = h.in_order },
)
Step-Serves {cells} (check_empty t b at z) lock h = (
  cells,
  record { holds = h.holds; busy = λ i p. grind (arith, h.busy i); in_order = h.in_order },
)
Step-Serves {s} {cells} (check_task t b at z) lock h = (
  cells,
  record {
    holds = h.holds;
    busy = λ i p. counted-has_task s.queue cells h.holds z;
    in_order = h.in_order;
  },
)
Step-Serves {cells} (wait t b at) lock h = (
  cells,
  record { holds = h.holds; busy = λ i p. grind (arith, h.busy i); in_order = h.in_order },
)
Step-Serves {cells} (wake t b at) lock h = (
  cells,
  record { holds = h.holds; busy = λ i p. grind (arith, h.busy i); in_order = h.in_order },
)
Step-Serves {s} {cells} (pull t d q b at run) lock h =
    let (x, rest, e, same, holds) = pull-Holds s.queue q cells true d h.holds (h.busy t at) run in
    (
      rest,
      record {
        holds = holds;
        busy = λ i p. absurd (grind (arith, lock i, lock t));
        in_order = taken_step s.enqueued s.taken cells rest x d h.in_order e (ap (λ r. r.1) same);
      },
    )
Step-Serves {s} {cells} (pull_failed t d q b at run) lock h =
    let (x, rest, e, same, holds) = pull-Holds s.queue q cells false d h.holds (h.busy t at) run in
    (
      rest,
      record {
        holds = holds;
        busy = λ i p. absurd (grind (arith, lock i, lock t));
        in_order = taken_step s.enqueued s.taken cells rest x d h.in_order e (ap (λ r. r.1) same);
      },
    )
Step-Serves {cells} (finish t d b at) lock h = (
  cells,
  record { holds = h.holds; busy = λ i p. grind (arith, h.busy i); in_order = h.in_order },
)
Step-Serves {s} {cells} (enqueue fresh client q at new run) lock h = (
  cells ++ (fresh, to_int client) ∷ [],
  record {
    holds = enqueue-Holds s.queue q cells fresh client h.holds new run;
    busy = λ i p. has_task-append cells (fresh, to_int client);
    in_order = enqueued_step s.enqueued s.taken cells fresh (to_int client) h.in_order;
  },
)
Step-Serves {s} {cells} (enqueue_failed fresh client q at new run) lock h = (
  cells,
  record {
    holds = refused-Holds s.queue q cells fresh client h.holds new run;
    busy = h.busy;
    in_order = h.in_order;
  },
)
Step-Serves {cells} (signal t b at waits) lock h = (
  cells,
  record { holds = h.holds; busy = λ i p. grind (arith, h.busy i); in_order = h.in_order },
)
Step-Serves {cells} (signal_nobody at none_waits) lock h =
    (cells, record { holds = h.holds; busy = h.busy; in_order = h.in_order })

pub Steps-Serves :
    {n : ℕ} {q : Queue} {u : Pool}
    → Steps n (started q) u
    → IsQueue q []
    → (cells : Cells) × Serves u cells
Steps-Serves here empty =
    ([], record { holds = inl empty; busy = λ i p. absurd (ground arith); in_order = refl })
Steps-Serves {q} (later steps step) empty =
    let (cells, h) = Steps-Serves steps empty in
    Step-Serves step (Steps-Locked steps (started-Locked q)) h

-- In every state that the pool gets to, the descriptors that were enqueued are, in order, those that
-- the threads took out, followed by those of the cells that the queue holds; a negative descriptor
-- counts as -1.
pub IsReachable-in_order :
    {n : ℕ} {s : Pool}
    → IsReachable n s
    → (cells : Cells) × Holds s.queue cells × (map pulled s.enqueued ≡ s.taken ++ map given cells)
IsReachable-in_order (q, empty, steps) =
    let (cells, h) = Steps-Serves steps empty in (cells, h.holds, h.in_order)

-- Whenever a thread is about to pull, `_pull_next_task` finds a task: it returns the answer for a
-- descriptor, unless it runs into a `queue_tail` inside a node that was freed.
pub IsReachable-pulling :
    {n : ℕ} {s : Pool}
    → IsReachable n s
    → (i : ℕ) → s.thread i ≡ pulling
    → (result : ℤ)
    → ((d : ℤ) × (q : Queue) × (pull_next_task result s.queue ≡ ok (answer d, q)))
      ⊎ (pull_next_task result s.queue ≡ fault use_after_free)
IsReachable-pulling {s} (q, empty, steps) i at result =
    let (cells, h) = Steps-Serves steps empty in finds s.queue cells h.holds (h.busy i at) result
  where
    finds :
        (queue : Queue) (cells : Cells)
        → Holds queue cells
        → has_task cells ≡ true
        → (result : ℤ)
        → ((d : ℤ) × (q : Queue) × (pull_next_task result queue ≡ ok (answer d, q)))
          ⊎ (pull_next_task result queue ≡ fault use_after_free)
    finds queue [] h more result = absurd (ground arith)
    finds queue ((a, d) ∷ rest) (inl is) more result =
        let (u, run, _, _) = pull_next_task-cons queue a d rest result is in inl (d, u, run)
    finds queue (x ∷ rest) (inr (a, d, single, stale)) more result =
        inr (pull_next_task-IsStale queue a d result stale)
