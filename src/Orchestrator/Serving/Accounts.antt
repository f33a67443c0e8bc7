-- ===== src/Orchestrator/Serving/Accounts.antt =====
-- What becomes of the events of one connection.
use orb_weaver.Orchestrator.Events.{Change, Arrival}
use orb_weaver.Orchestrator.Serving.InOrder.{Served-IsReachable, Served-in_order}
use orb_weaver.Orchestrator.Serving.Queued.{queued}
use orb_weaver.Orchestrator.Serving.{System, Served}
use orb_weaver.Prelude.{ℕ, ◌+◌, ◌≡◌, ◌≢◌, ap, List, map, arith, ℤ, negsuc, ◌∙◌}
use orb_weaver.ThreadHandler.Pool.Closed.{count, count-append, workers, IsReachable-closed}
use orb_weaver.ThreadHandler.Pool.Tasks.{Holds, given}
use orb_weaver.ThreadHandler.Queue.Chain.{Cells}
use orb_weaver.ThreadHandler.Queue.Pull.{pulled}

-- In a server that came up through `init_thread_handler`, in whatever order the steps were taken: of
-- the data events of a descriptor, but for those for which `calloc` gave no node, each one was
-- answered by closing the descriptor, or is being processed by a thread, or waits in the queue, and
-- the descriptor is not closed but for those.
pub Served-accounts :
    {kevent : Change → ℤ} {socket_descriptor : ℤ} {n : ℕ} {arrivals : List Arrival} {s : System}
    {d : ℤ}
    → Served kevent socket_descriptor n arrivals s
    → d ≢ negsuc 0
    → (cells : Cells) × Holds s.pool.queue cells
      × (count d s.pool.closed + workers d n s.pool.thread + count d (map given cells)
          ≡ count d (map pulled (queued socket_descriptor arrivals)))
Served-accounts {s} {d} served ne =
    let (cells, holds, order) = Served-in_order served in
    let closed = IsReachable-closed (Served-IsReachable served) ne in
    let split = ap (count d) order ∙ count-append d s.pool.taken (map given cells) in
    (cells, holds, omega arith)
