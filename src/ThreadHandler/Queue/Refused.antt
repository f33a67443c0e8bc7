-- ===== src/ThreadHandler/Queue/Refused.antt =====
-- `enqueue_task` where `calloc` fails.
use mathlib.Core.Path.{subst}
use orb_weaver.Prelude.{ℕ, ◌≡◌, sym, false, some, ◌∷◌, arith, pos, ok}
use orb_weaver.ThreadHandler.Queue.Chain.{Cells, Linked, last_of, frame, IsQueue, last_of-node}
use orb_weaver.ThreadHandler.Queue.Tail.{load-some, TailAt, load_tail-TailAt, TailAt-tail_of}
use orb_weaver.ThreadHandler.Queue.{
  Pointer, null, Connection, connection, Heap, update, Queue, enqueue_task,
}

-- A write of what is there already.
Linked-rewrite :
    (xs : Cells) (h : Heap) (prev a : Pointer) (c : Connection)
    → h a ≡ some c
    → Linked h prev xs
    → Linked (update h a (some c)) prev xs
Linked-rewrite xs h prev a c e l = frame xs h (update h a (some c)) prev (λ p i. ground arith) l

-- On a queue of the connections `xs`, where `calloc` gives `NULL`, `enqueue_task` returns `false` and
-- leaves the queue of the same connections.
pub enqueue_task-null :
    (q : Queue) (xs : Cells) (client : ℕ)
    → IsQueue q xs
    → (q' : Queue) × (enqueue_task null client q ≡ ok (false, q')) × IsQueue q' xs
unfolding enqueue_task
enqueue_task-null q xs client is =
    let (e, p, found, last_ne) = last_of-node q.head (pos 0) xs q.heap null is.linked in
    let l = last_of q.head xs in
    let at : TailAt q.heap q.head q.tail l =
      subst (λ t. TailAt q.heap q.head t l) (sym is.tail)
        (TailAt-tail_of xs q.heap q.head is.linked) in
    let node = load-some l (connection e null p) q last_ne found in
    (
      record q { heap = update q.heap l (some (connection e null p)) },
      rw (load_tail-TailAt q.tail q l at, node, node),
      record {
        linked =
            Linked-rewrite ((q.head, pos 0) ∷ xs) q.heap null l (connection e null p) found
              is.linked;
        tail = is.tail;
        counted = is.counted;
      },
    )
