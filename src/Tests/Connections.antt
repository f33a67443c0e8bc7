-- ===== src/Tests/Connections.antt =====
-- The queue of connections with the placeholder at address 1.
use orb_weaver.Prelude.{
  List, perform_all, ◌^◌, ◌≡◌, refl, true, false, some, none, [], ◌∷◌, arith, pos, negsuc, to_int,
  ◌-◌, ◌==◌, if◌then◌else◌, Run, ok, fault,
}
use orb_weaver.ThreadHandler.Queue.Chain.{IsQueue}
use orb_weaver.ThreadHandler.Queue.Client.{Call, enqueue, pull, perform, init_queue-fifo}
use orb_weaver.ThreadHandler.Queue.Enqueue.{enqueue_task-append}
use orb_weaver.ThreadHandler.Queue.Pull.{pull_next_task-cons}
use orb_weaver.ThreadHandler.Queue.Stale.{After}
use orb_weaver.ThreadHandler.Queue.{
  null, connection, queue_head, next_of, Heap, Queue, ◌>>◌, load, load_tail, enqueue_task,
  pull_next_task, init_queue,
}

program : Unit {0}
unfolding load load_tail enqueue_task pull_next_task init_queue to_int
program = tt

abbrev start : Queue
start = record { heap = λ _. none; head = null; tail = queue_head; connections = 0 }

-- The placeholder, and the waiting connections 7 at address 2 and 9 at address 3.
abbrev pub heap₀ : Heap
heap₀ p = if p == 1 then some (connection (pos 0) null null) else none

abbrev heap₂ : Heap
heap₂ p =
    if p == 1
    then some (connection (pos 0) 2 null)
    else if p == 2
    then some (connection (pos 7) 3 1)
    else if p == 3
    then some (connection (pos 9) null 2)
    else none

abbrev heap₃ : Heap
heap₃ p =
    if p == 1
    then some (connection (pos 0) 2 null)
    else if p == 2
    then some (connection (pos 7) 3 1)
    else if p == 3
    then some (connection (pos 9) 4 2)
    else if p == 4
    then some (connection (pos 8) null 3)
    else none

abbrev pub queue₀ : Queue
queue₀ = record { heap = heap₀; head = 1; tail = queue_head; connections = 0 }

abbrev pub queue₂ : Queue
queue₂ = record { heap = heap₂; head = 1; tail = next_of 2; connections = 2 }

abbrev queue₃ : Queue
queue₃ = record { heap = heap₃; head = 1; tail = next_of 3; connections = 3 }

pub queue₀-IsQueue : IsQueue queue₀ []
queue₀-IsQueue = record { linked = (refl, ground arith, refl, tt); tail = refl; counted = refl }

pub queue₂-IsQueue : IsQueue queue₂ ((2, pos 7) ∷ (3, pos 9) ∷ [])
queue₂-IsQueue = record {
  linked = (refl, ground arith, refl, (refl, ground arith, refl, (refl, ground arith, refl, tt)));
  tail = refl;
  counted = refl;
}

queue₃-IsQueue : IsQueue queue₃ ((2, pos 7) ∷ (3, pos 9) ∷ (4, pos 8) ∷ [])
queue₃-IsQueue = record {
  linked = (
    refl,
    ground arith,
    refl,
    (refl, ground arith, refl, (refl, ground arith, refl, (refl, ground arith, refl, tt))),
  );
  tail = refl;
  counted = refl;
}

abbrev answers : {A : Type 0} → Run (A × Queue) → Run A
answers (ok (a, q)) = ok a
answers (fault e) = fault e

-- Connections come out in the order in which they went in.
in_order :
    answers
      ((enqueue_task 2 7 >> enqueue_task 3 9 >> enqueue_task 4 8 >> pull_next_task (pos 0)) queue₀)
    ≡ ok (true, pos 7)
unfolding program
in_order = refl

-- The bit pattern of -1 gives the answer `false`.
pull_negative :
    answers ((enqueue_task 2 (2 ^ 32 - 1) >> pull_next_task (pos 0)) queue₀) ≡ ok (false, negsuc 0)
unfolding program
pull_negative = refl

enqueue_task-append_example :
    (q' : Queue) × (enqueue_task 4 8 queue₂ ≡ ok (true, q'))
    × IsQueue q' ((2, pos 7) ∷ (3, pos 9) ∷ (4, pos 8) ∷ [])
unfolding to_int
enqueue_task-append_example =
    enqueue_task-append queue₂ ((2, pos 7) ∷ (3, pos 9) ∷ []) 4 8 queue₂-IsQueue (ground arith) refl

pull_next_task-cons_example :
    (q' : Queue) × (pull_next_task (pos 0) queue₃ ≡ ok ((true, pos 7), q'))
    × (q'.heap 2 ≡ none)
    × After q' ((3, pos 9) ∷ (4, pos 8) ∷ [])
pull_next_task-cons_example =
    pull_next_task-cons queue₃ 2 (pos 7) ((3, pos 9) ∷ (4, pos 8) ∷ []) (pos 0) queue₃-IsQueue

-- Address 2 is used again once its node is freed.
abbrev calls : List Call
calls = enqueue 2 7 ∷ enqueue 3 9 ∷ enqueue 4 8 ∷ pull ∷ enqueue 2 5 ∷ pull ∷ enqueue 3 6 ∷ []

init_queue-fifo_example :
    (first last : Queue) × (init_queue 1 start ≡ ok (true, first))
    × (perform_all perform calls first
        ≡ ok (
          (true, negsuc 0)
              ∷ (true, negsuc 0)
              ∷ (true, negsuc 0)
              ∷ (true, pos 7)
              ∷ (true, negsuc 0)
              ∷ (true, pos 9)
              ∷ (true, negsuc 0)
              ∷ [],
          last,
        ))
    × IsQueue last ((4, pos 8) ∷ (2, pos 5) ∷ (3, pos 6) ∷ [])
unfolding program
init_queue-fifo_example =
    init_queue-fifo start 1 calls (λ p. refl) refl (ground arith)
      (
        (ground arith, refl),
        (
          (ground arith, refl),
          (
            (ground arith, refl),
            (refl, ((ground arith, refl), (refl, ((ground arith, refl), tt)))),
          ),
        ),
      )
