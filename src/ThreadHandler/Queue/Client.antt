-- ===== src/ThreadHandler/Queue/Client.antt =====
-- The queue as a list: calls one after the other on one thread, none of which leaves just one
-- connection behind a pull.
use orb_weaver.Prelude.{
  ℕ, ◌≡◌, ◌≢◌, refl, Bool, true, false, not, ◌||◌, ◌&&◌, some, none, List, [], ◌∷◌, ◌++◌, arith,
  Run, ok, ◌>>=◌, ℤ, pos, negsuc, to_int, ◌==◌, ==_ne, ==_iff, Bool-cases, inl, inr, Simulates,
  perform_all, behind_all, all_expected, AreAllowed, perform_all-Stands,
}
use orb_weaver.ThreadHandler.Queue.Chain.{Cells, IsQueue}
use orb_weaver.ThreadHandler.Queue.Enqueue.{enqueue_task-append, enqueue_task-unused}
use orb_weaver.ThreadHandler.Queue.Pull.{
  answer, pull_next_task-nil, pull_next_task-cons, pull_next_task-unused,
}
use orb_weaver.ThreadHandler.Queue.Stale.{After}
use orb_weaver.ThreadHandler.Queue.{
  Pointer, null, connection, queue_head, update, Queue, enqueue_task, pull_next_task, init_queue,
}

-- `fresh` is what `calloc` gives for the call.
pub data Call : Type 0 where
  enqueue : (fresh : Pointer) (client : ℕ) → Call
  pull : Call

-- The result, and for `pull` the descriptor.
abbrev pub Answer : Type 0
Answer = Bool × ℤ

unfoldable pub perform : Call → Queue → Run (Answer × Queue)
perform (enqueue fresh client) q = enqueue_task fresh client q >>= λ r. ok ((r.0, negsuc 0), r.1)
perform pull q = pull_next_task (negsuc 0) q

-- The connections, and the addresses that are in use.
pub record Fifo : Type 0 where
  pub cells : Cells
  pub in_use : Pointer → Bool

abbrev pub placeholder : Pointer → Fifo
placeholder head = record { cells = []; in_use = λ p. p == head }

abbrev pub pulled_off : Cells → Fifo → Fifo
pulled_off [] m = m
pulled_off ((a, d) ∷ cells) m = record { cells = cells; in_use = λ p. m.in_use p && not (p == a) }

abbrev pub behind : Call → Fifo → Fifo
behind (enqueue fresh client) m = record {
  cells = m.cells ++ (fresh, to_int client) ∷ [];
  in_use = λ p. m.in_use p || p == fresh;
}
behind pull m = pulled_off m.cells m

abbrev pub first_answer : Cells → Answer
first_answer [] = (false, negsuc 0)
first_answer ((a, d) ∷ cells) = answer d

abbrev pub expected : Call → Fifo → Answer
expected (enqueue fresh client) m = (true, negsuc 0)
expected pull m = first_answer m.cells

-- A pull of the first of two.
abbrev pub leaves_one : Cells → Bool
leaves_one (x ∷ y ∷ []) = true
leaves_one _ = false

abbrev pub IsAllowed : Call → Fifo → Type 0
IsAllowed (enqueue fresh client) m = (fresh ≢ null) × (m.in_use fresh ≡ false)
IsAllowed pull m = leaves_one m.cells ≡ false

pub record Stands (q : Queue) (m : Fifo) : Type 0 where
  pub is : IsQueue q m.cells
  pub unused : (p : Pointer) → m.in_use p ≡ false → q.heap p ≡ none

After-IsQueue :
    (q : Queue) (x : Pointer × ℤ) (xs : Cells)
    → leaves_one (x ∷ xs) ≡ false
    → After q xs
    → IsQueue q xs
After-IsQueue q x [] one after = after
After-IsQueue q x (y ∷ []) one after = absurd (ground arith)
After-IsQueue q x (y ∷ z ∷ xs) one after = after

pull-Stands :
    (q : Queue) (cells : Cells) (in_use : Pointer → Bool)
    → Stands q (record { cells = cells; in_use = in_use })
    → leaves_one cells ≡ false
    → (q' : Queue) × (pull_next_task (negsuc 0) q ≡ ok (first_answer cells, q'))
      × Stands q' (pulled_off cells (record { cells = cells; in_use = in_use }))
pull-Stands q [] in_use h one = (q, pull_next_task-nil q (negsuc 0) h.is, h)
pull-Stands q ((a, d) ∷ cells) in_use h one =
    let (q', run, gone, after) = pull_next_task-cons q a d cells (negsuc 0) h.is in
    let (_, keep) = pull_next_task-unused q q' a d cells (negsuc 0) h.is run in
    (
      q',
      run,
      record {
        is = After-IsQueue q' (a, d) cells one after;
        unused = λ p free. elim (Bool-cases (p == a)) [
          | inl same ↦ rw ((==_iff p a).0 same) gone
          | inr other ↦ keep p (h.unused p (ground arith))
        ];
      },
    )

perform-Stands :
    (call : Call) (q : Queue) (m : Fifo)
    → Stands q m
    → IsAllowed call m
    → (q' : Queue) × (perform call q ≡ ok (expected call m, q')) × Stands q' (behind call m)
unfolding perform
perform-Stands (enqueue fresh client) q m h (ne, free) =
    let gone = h.unused fresh free in
    let (q', run, is') = enqueue_task-append q m.cells fresh client h.is ne gone in
    let keep = enqueue_task-unused q q' m.cells fresh client h.is ne gone run in
    (
      q',
      rw run refl,
      record { is = is'; unused = λ p out. keep p (ground arith) (h.unused p (ground arith)) },
    )
perform-Stands pull q m h one = pull-Stands q m.cells m.in_use h one

-- The two operations keep the queue a list.
pub connections : Simulates perform IsAllowed expected behind Stands
connections = record { performs = perform-Stands }

-- From the set-up of the queue with a placeholder, on an empty heap with the counter at 0, any
-- sequence of enqueues, with addresses from `calloc` that are not in use at that time, and of pulls,
-- none of which takes the first of just two connections, ends without a fault: the connections are
-- handed out first in, first out, each once and a negative one as -1, a pull from the empty queue
-- says `false`, and the queue at the end holds those that are left.
pub init_queue-fifo :
    (q : Queue) (head : Pointer) (calls : List Call)
    → ((p : Pointer) → q.heap p ≡ none)
    → q.connections ≡ 0
    → head ≢ null
    → AreAllowed behind IsAllowed calls (placeholder head)
    → (start end : Queue) × (init_queue head q ≡ ok (true, start))
      × (perform_all perform calls start
          ≡ ok (all_expected behind expected calls (placeholder head), end))
      × IsQueue end (behind_all behind calls (placeholder head)).cells
unfolding init_queue
init_queue-fifo q head calls empty zero_connections ne allowed =
    let start : Queue = record {
      heap = update q.heap head (some (connection (pos 0) null null));
      head = head;
      tail = queue_head;
      connections = q.connections;
    } in
    let stands : Stands start (placeholder head) = record {
      is = record {
        linked = (ground arith, ne, refl, tt);
        tail = refl;
        counted = zero_connections;
      };
      unused = λ p out. rw (out) (empty p);
    } in
    let (end, run, h) =
      perform_all-Stands connections calls start (placeholder head) stands allowed in
    (start, end, rw (==_ne head null ne), run, h.is)
