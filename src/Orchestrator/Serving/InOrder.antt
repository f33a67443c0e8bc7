-- ===== src/Orchestrator/Serving/InOrder.antt =====
-- The events that arrive and the tasks that the threads take.
use mathlib.Core.Path.{subst}
use orb_weaver.Orchestrator.Boot.{no_threads}
use orb_weaver.Orchestrator.Events.InOrder.{is_connection, connection-queue, connection-event}
use orb_weaver.Orchestrator.Events.{Change, Arrival, Server, process_data_event, process_event}
use orb_weaver.Orchestrator.Serving.Queued.{
  queued, enqueue_task-fresh, queued-connects, queued-sends, queued-sends_in_vain,
}
use orb_weaver.Orchestrator.Serving.{
  System, server, is_enqueue, Served, booted, runs, connects, sends, sends_in_vain,
}
use orb_weaver.Orchestrator.Threads.Ready.{init_thread_handler-IsQueue}
use orb_weaver.Prelude.{
  ℕ, ◌≡◌, inl, inr, refl, sym, ◌∙◌, ap, Bool, true, false, List, [], ◌∷◌, ◌++◌, map, arith, ok, ℤ,
  to_int, Bool-cases, Ensures,
}
use orb_weaver.ThreadHandler.Pool.Order.{IsReachable-in_order}
use orb_weaver.ThreadHandler.Pool.Tasks.{Holds, given}
use orb_weaver.ThreadHandler.Pool.{
  Pool, Step, enter, enter_again, check_empty, check_task, wait, wake, pull, pull_failed, finish,
  enqueue, enqueue_failed, signal, signal_nobody, later, here, IsReachable,
}
use orb_weaver.ThreadHandler.Queue.Chain.{Cells}
use orb_weaver.ThreadHandler.Queue.Pull.{pulled}
use orb_weaver.ThreadHandler.Queue.{Queue, enqueue_task}

-- A step of a thread, or a signal, enqueues nothing.
is_enqueue-enqueued :
    {n : ℕ} {s u : Pool} (step : Step n s u) → is_enqueue step ≡ false → u.enqueued ≡ s.enqueued
is_enqueue-enqueued (enter t b at free) no_event = refl
is_enqueue-enqueued (enter_again t b at free) no_event = refl
is_enqueue-enqueued (check_empty t b at z) no_event = refl
is_enqueue-enqueued (check_task t b at z) no_event = refl
is_enqueue-enqueued (wait t b at) no_event = refl
is_enqueue-enqueued (wake t b at) no_event = refl
is_enqueue-enqueued (pull t d q b at run) no_event = refl
is_enqueue-enqueued (pull_failed t d q b at run) no_event = refl
is_enqueue-enqueued (finish t d b at) no_event = refl
is_enqueue-enqueued (enqueue fresh client q at new run) no_event = absurd (ground arith)
is_enqueue-enqueued (enqueue_failed fresh client q at new run) no_event = absurd (ground arith)
is_enqueue-enqueued (signal t b at waits) no_event = refl
is_enqueue-enqueued (signal_nobody at none_waits) no_event = refl

module _ (kevent : Change → ℤ) (socket_descriptor : ℤ) (arrival : Arrival) (s : Server) where
  event-connects :
      {v : Server}
      → is_connection socket_descriptor arrival ≡ true
      → process_event kevent socket_descriptor arrival s ≡ ok v
      → v.threads.queue ≡ s.threads.queue
  event-connects {v} connection run =
      let direct = connection-event kevent socket_descriptor arrival s connection in
      let kept = connection-queue kevent socket_descriptor arrival.accepted arrival.timeout_set s in
      cc

  sends-Ensures :
      {b : Bool} {q : Queue}
      → is_connection socket_descriptor arrival ≡ false
      → enqueue_task arrival.fresh arrival.event.ident s.threads.queue ≡ ok (b, q)
      → Ensures (λ v. v.threads.queue ≡ q) (process_event kevent socket_descriptor arrival s)
  unfolding process_event process_data_event
  sends-Ensures {b = true} data_event queues = elim (Bool-cases arrival.event.eof) [
    | inl last ↦ rw (data_event, queues, last) refl
    | inr more ↦ rw (data_event, queues, more) refl
  ]
  sends-Ensures {b = false} data_event queues = rw (data_event, queues) refl

  event-sends :
      {b : Bool} {q : Queue} {v : Server}
      → is_connection socket_descriptor arrival ≡ false
      → enqueue_task arrival.fresh arrival.event.ident s.threads.queue ≡ ok (b, q)
      → process_event kevent socket_descriptor arrival s ≡ ok v
      → v.threads.queue ≡ q
  event-sends {q} data_event queues run =
      subst (Ensures (λ v. v.threads.queue ≡ q)) run (sends-Ensures data_event queues)

-- The pool is reachable, and what it enqueued are the data events.
record Follows (socket_descriptor : ℤ) (n : ℕ) (arrivals : List Arrival) (pool : Pool)
    : Type 0 where
  reachable : IsReachable n pool
  enqueued : pool.enqueued ≡ queued socket_descriptor arrivals

Served-Follows :
    {kevent : Change → ℤ} {socket_descriptor : ℤ} {n : ℕ} {arrivals : List Arrival} {s : System}
    → Served kevent socket_descriptor n arrivals s
    → Follows socket_descriptor n arrivals s.pool
Served-Follows (booted calls t run added) = record {
  reachable = (t.queue, init_thread_handler-IsQueue calls _ no_threads t refl run, here);
  enqueued = refl;
}
Served-Follows (runs served step no_event) =
    let before = Served-Follows served in
    let (q, empty, steps) = before.reachable in
    record {
      reachable = (q, empty, later steps step);
      enqueued = is_enqueue-enqueued step no_event ∙ before.enqueued;
    }
Served-Follows {kevent} {socket_descriptor} {n}
      (connects {arrivals} {s} arrival v served idle connection run) =
    let before = Served-Follows served in
    let same = event-connects kevent socket_descriptor arrival (server s) connection run in
    record {
      reachable =
          subst (λ q. IsReachable n (record s.pool { queue = q })) (sym same) before.reachable;
      enqueued =
          before.enqueued ∙ sym (queued-connects socket_descriptor arrivals arrival connection);
    }
Served-Follows {kevent} {socket_descriptor} {n}
      (sends {arrivals} {s} arrival q v served idle new data_event queues run) =
    let before = Served-Follows served in
    let (q₀, empty, steps) = before.reachable in
    let (cells, holds, _) = IsReachable-in_order before.reachable in
    let made =
      enqueue_task-fresh s.pool.queue q cells arrival.fresh arrival.event.ident true holds new
        queues in
    let same = event-sends kevent socket_descriptor arrival (server s) data_event queues run in
    record {
      reachable = (
        q₀,
        empty,
        later steps
            (enqueue arrival.fresh arrival.event.ident v.threads.queue idle new (rw same queues)),
      );
      enqueued =
          ap (◌++ to_int arrival.event.ident ∷ []) before.enqueued
          ∙ sym (queued-sends socket_descriptor arrivals arrival data_event (ground arith));
    }
Served-Follows {kevent} {socket_descriptor} {n}
      (sends_in_vain {arrivals} {s} arrival q v served idle new data_event queues run) =
    let before = Served-Follows served in
    let (q₀, empty, steps) = before.reachable in
    let (cells, holds, _) = IsReachable-in_order before.reachable in
    let made =
      enqueue_task-fresh s.pool.queue q cells arrival.fresh arrival.event.ident false holds new
        queues in
    let same = event-sends kevent socket_descriptor arrival (server s) data_event queues run in
    record {
      reachable = (
        q₀,
        empty,
        later steps (
            enqueue_failed arrival.fresh arrival.event.ident v.threads.queue idle new
              (rw same queues)),
      );
      enqueued =
          before.enqueued
          ∙ sym (queued-sends_in_vain socket_descriptor arrivals arrival data_event (ground arith));
    }

-- The pool of a server that came up through `start_processing` is one that the threads and the poll
-- loop get to.
pub Served-IsReachable :
    {kevent : Change → ℤ} {socket_descriptor : ℤ} {n : ℕ} {arrivals : List Arrival} {s : System}
    → Served kevent socket_descriptor n arrivals s
    → IsReachable n s.pool
Served-IsReachable served = let h = Served-Follows served in h.reachable

-- After a successful `init_thread_handler`, in whatever order the events are processed among the
-- steps of the threads: the descriptors of the data events that arrived, but for those for which
-- `calloc` gave no node, are, in order, those that the threads took out of the queue, followed by
-- those of the cells that the queue holds; a negative descriptor counts as -1.
pub Served-in_order :
    {kevent : Change → ℤ} {socket_descriptor : ℤ} {n : ℕ} {arrivals : List Arrival} {s : System}
    → Served kevent socket_descriptor n arrivals s
    → (cells : Cells) × Holds s.pool.queue cells
      × (map pulled (queued socket_descriptor arrivals) ≡ s.pool.taken ++ map given cells)
Served-in_order served =
    let h = Served-Follows served in
    let (cells, holds, order) = IsReachable-in_order h.reachable in
    (cells, holds, ap (map pulled) (sym h.enqueued) ∙ order)
