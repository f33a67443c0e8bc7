-- ===== src/Orchestrator/Serving/Queued.antt =====
-- Which events `enqueue_task` puts into the queue.
use mathlib.Core.List.{append-nil}
use orb_weaver.Orchestrator.Events.InOrder.{is_connection}
use orb_weaver.Orchestrator.Events.{Arrival}
use orb_weaver.Prelude.{
  ℕ, ◌≡◌, ◌⊎◌, inl, inr, refl, Bool, true, false, not, none, List, [], ◌∷◌, ◌++◌, arith, ok, ℤ,
  to_int, ◌==◌, if◌then◌else◌, Bool-cases, ==_iff,
}
use orb_weaver.ThreadHandler.Pool.Tasks.{Holds}
use orb_weaver.ThreadHandler.Queue.Chain.{Cells}
use orb_weaver.ThreadHandler.Queue.Enqueue.{enqueue_task-append}
use orb_weaver.ThreadHandler.Queue.Stale.{enqueue_task-IsStale}
use orb_weaver.ThreadHandler.Queue.Refused.{enqueue_task-null}
use orb_weaver.ThreadHandler.Queue.{Pointer, null, Queue, enqueue_task}

-- The descriptors of the data events for which `calloc` gives a node.
abbrev pub queued : ℤ → List Arrival → List ℤ
queued socket_descriptor [] = []
queued socket_descriptor (arrival ∷ rest) =
    if is_connection socket_descriptor arrival
    then queued socket_descriptor rest
    else if arrival.fresh == null
    then queued socket_descriptor rest
    else to_int arrival.event.ident ∷ queued socket_descriptor rest

queued-append :
    (socket_descriptor : ℤ) (xs ys : List Arrival)
    → queued socket_descriptor (xs ++ ys)
      ≡ queued socket_descriptor xs ++ queued socket_descriptor ys
queued-append socket_descriptor [] ys = refl
queued-append socket_descriptor (x ∷ xs) ys =
    let rest = queued-append socket_descriptor xs ys in ground arith

pub enqueue_task-fresh :
    (q q' : Queue) (cells : Cells) (fresh : Pointer) (client : ℕ) (b : Bool)
    → Holds q cells
    → (fresh ≡ null) ⊎ (q.heap fresh ≡ none)
    → enqueue_task fresh client q ≡ ok (b, q')
    → b ≡ not (fresh == null)
enqueue_task-fresh q q' cells fresh client b (inr (a, d, single, stale)) new run =
    let stuck = enqueue_task-IsStale q ((a, d) ∷ []) fresh client stale in absurd (ground arith)
enqueue_task-fresh q q' cells fresh client b (inl is) new run = elim (Bool-cases (fresh == null)) [
  | inl z ↦
      let (u, refused, _) = enqueue_task-null q cells client is in
      let refused' : enqueue_task fresh client q ≡ ok (false, u) =
        rw ((==_iff fresh null).0 z) refused in
      ground arith
  | inr ne ↦
      let unused : q.heap fresh ≡ none = elim new [
        | inl e ↦ absurd (ground arith)
        | inr unused ↦ unused
      ] in
      let (u, appended, _) = enqueue_task-append q cells fresh client is (ground arith) unused in
      ground arith
]

module _ (socket_descriptor : ℤ) (arrivals : List Arrival) (arrival : Arrival) where
  pub queued-connects :
      is_connection socket_descriptor arrival ≡ true
      → queued socket_descriptor (arrivals ++ arrival ∷ []) ≡ queued socket_descriptor arrivals
  queued-connects connection =
      rw (queued-append socket_descriptor arrivals (arrival ∷ []), connection) (append-nil _)

  pub queued-sends :
      is_connection socket_descriptor arrival ≡ false
      → (arrival.fresh == null) ≡ false
      → queued socket_descriptor (arrivals ++ arrival ∷ [])
        ≡ queued socket_descriptor arrivals ++ to_int arrival.event.ident ∷ []
  queued-sends data_event made =
      rw (queued-append socket_descriptor arrivals (arrival ∷ []), data_event, made) refl

  pub queued-sends_in_vain :
      is_connection socket_descriptor arrival ≡ false
      → (arrival.fresh == null) ≡ true
      → queued socket_descriptor (arrivals ++ arrival ∷ []) ≡ queued socket_descriptor arrivals
  queued-sends_in_vain data_event no_node =
      rw (queued-append socket_descriptor arrivals (arrival ∷ []), data_event, no_node)
        (append-nil _)
