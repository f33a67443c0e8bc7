-- ===== src/ThreadHandler/Queue/Stale.antt =====
-- A queue whose `queue_tail` is inside a node that was freed: both operations fault.
use orb_weaver.Prelude.{
  ℕ, ◌%◌, ◌^◌, ◌≡◌, ◌≢◌, none, [], ◌∷◌, ℤ, pos, ==_ne, length, fault, use_after_free,
}
use orb_weaver.ThreadHandler.Queue.Chain.{Cells, Linked, IsQueue}
use orb_weaver.ThreadHandler.Queue.Tail.{load-some}
use orb_weaver.ThreadHandler.Queue.{
  Pointer, null, connection, Location, next_of, Queue, load, load_tail, enqueue_task,
  pull_next_task,
}

-- What is left of a queue whose only connection `xs` is still reached from the placeholder, while
-- `queue_tail` points into a node that was freed.
pub record IsStale (q : Queue) (xs : Cells) : Type 0 where
  pub linked : Linked q.heap null ((q.head, pos 0) ∷ xs)
  pub counted : q.connections ≡ length xs % 2 ^ 32
  pub freed : Pointer
  pub tail : q.tail ≡ next_of freed
  pub gone : q.heap freed ≡ none
  pub freed_ne_null : freed ≢ null

-- The state behind a pull: the rest of the queue, or a stale one where just one connection is left.
abbrev pub After : Queue → Cells → Type 0
After q (x ∷ []) = IsStale q (x ∷ [])
After q xs = IsQueue q xs

load_tail-gone :
    (t : Location) (p : Pointer) (q : Queue)
    → t ≡ next_of p
    → p ≢ null
    → q.heap p ≡ none
    → load_tail t q ≡ fault use_after_free
unfolding load_tail load
load_tail-gone t p q e ne gone = rw (e, ==_ne p 0 ne, gone)

-- On a stale queue both operations read the freed node.
pub enqueue_task-IsStale :
    (q : Queue) (xs : Cells) (fresh : Pointer) (client : ℕ)
    → IsStale q xs
    → enqueue_task fresh client q ≡ fault use_after_free
unfolding enqueue_task
enqueue_task-IsStale q xs fresh client stale =
    rw (load_tail-gone q.tail stale.freed q stale.tail stale.freed_ne_null stale.gone)

pub pull_next_task-IsStale :
    (q : Queue) (a : Pointer) (d : ℤ) (result : ℤ)
    → IsStale q ((a, d) ∷ [])
    → pull_next_task result q ≡ fault use_after_free
unfolding pull_next_task
pull_next_task-IsStale q a d result stale = rw (
  load-some q.head (connection (pos 0) a null) q stale.linked.1 stale.linked.0,
  ==_ne a 0 stale.linked.3.1,
  load-some a (connection d null q.head) q stale.linked.3.1 stale.linked.3.0,
  load_tail-gone q.tail stale.freed q stale.tail stale.freed_ne_null stale.gone,
)
