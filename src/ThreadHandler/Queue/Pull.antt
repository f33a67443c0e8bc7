-- ===== src/ThreadHandler/Queue/Pull.antt =====
-- `_pull_next_task` takes the first connection off the queue; from two connections it leaves
-- `queue_tail` inside the node that it frees.
use mathlib.Core.Path.{subst}
use orb_weaver.Prelude.{
  ◌+◌, ◌-◌, ◌%◌, ◌^◌, ◌≡◌, ◌≢◌, refl, sym, Bool, true, false, not, some, none, [], ◌∷◌, arith, ℤ,
  pos, negsuc, is_negative, ◌==◌, ==_ne, if◌then◌else◌, ok,
}
use orb_weaver.ThreadHandler.Queue.Chain.{
  Cells, first, has, last_of, Linked, IsQueue, frame, has-last_of, ne_of_has,
}
use orb_weaver.ThreadHandler.Queue.Stale.{After}
use orb_weaver.ThreadHandler.Queue.Tail.{load-some, TailAt, load_tail-TailAt, TailAt-tail_of}
use orb_weaver.ThreadHandler.Queue.{
  Pointer, null, connection, queue_head, update, Queue, load, load_tail, pull_next_task,
}

-- The descriptor that the caller gets.
abbrev pub pulled : ℤ → ℤ
pulled d = if is_negative d then negsuc 0 else d

abbrev pub answer : ℤ → Bool × ℤ
answer d = (not (is_negative (pulled d)), pulled d)

-- An empty queue gives `false` and leaves everything as it was.
pub pull_next_task-nil :
    (q : Queue) (result : ℤ) → IsQueue q [] → pull_next_task result q ≡ ok ((false, result), q)
unfolding pull_next_task
pull_next_task-nil q result is =
    rw (load-some q.head (connection (pos 0) null null) q is.linked.1 is.linked.0)

-- `_pull_next_task` on a queue that begins with the connection `a`.
module _ (q : Queue) (a : Pointer) (d : ℤ) (xs : Cells) (is : IsQueue q ((a, d) ∷ xs)) where
  head_node : load q.head q ≡ ok (connection (pos 0) a null, q)
  head_node = load-some q.head (connection (pos 0) a null) q is.linked.1 is.linked.0

  task_node : load a q ≡ ok (connection d (first xs) q.head, q)
  task_node = load-some a (connection d (first xs) q.head) q is.linked.3.1 is.linked.3.0

  tail_node : load_tail q.tail q ≡ ok (last_of a xs, q)
  tail_node = load_tail-TailAt q.tail q (last_of a xs) (
      subst (λ t. TailAt q.heap q.head t (last_of a xs)) (sym is.tail)
        (TailAt-tail_of ((a, d) ∷ xs) q.heap q.head is.linked))

  ne_null : (a == null) ≡ false
  ne_null = let n = is.linked.3.1 in ground arith

  ne_head : q.head ≢ a
  ne_head = let n = is.linked.2 in ground arith

-- A queue of one connection.
module _ (q : Queue) (a : Pointer) (d : ℤ) (result : ℤ) (is : IsQueue q ((a, d) ∷ [])) where
  abbrev emptied : Queue
  emptied = record {
    heap = update (update q.heap q.head (some (connection (pos 0) null null))) a none;
    head = q.head;
    tail = queue_head;
    connections = (q.connections + (2 ^ 32 - 1)) % 2 ^ 32;
  }

  pull_one : pull_next_task result q ≡ ok (answer d, emptied)
  unfolding pull_next_task
  pull_one =
      let n = ne_head q a d [] is in
      let same : (a == a) ≡ true = ground arith in
      rw
        (
          head_node q a d [] is,
          ne_null q a d [] is,
          task_node q a d [] is,
          tail_node q a d [] is,
          same,
          head_node q a d [] is,
          load-some a (connection d null q.head)
              (record q {
                heap = update q.heap q.head (some (connection (pos 0) null null));
                tail = queue_head;
              })
              is.linked.3.1 (ground arith),
        )
        refl

  emptied-IsQueue : IsQueue emptied []
  emptied-IsQueue = record {
    linked = (let n = ne_head q a d [] is in ground arith, is.linked.1, refl, tt);
    tail = refl;
    counted = omega (arith, is.counted);
  }

-- A queue of more.
module _ (q : Queue) (a : Pointer) (d : ℤ) (b : Pointer) (e : ℤ) (ys : Cells) (result : ℤ)
    (is : IsQueue q ((a, d) ∷ (b, e) ∷ ys)) where
  abbrev shifted : Queue
  shifted = record {
    heap =
        update
          (update (update q.heap q.head (some (connection (pos 0) b null))) b
            (some (connection e (first ys) q.head)))
          a none;
    head = q.head;
    tail = q.tail;
    connections = (q.connections + (2 ^ 32 - 1)) % 2 ^ 32;
  }

  pull_more : pull_next_task result q ≡ ok (answer d, shifted)
  unfolding pull_next_task
  pull_more =
      let n = ne_head q a d ((b, e) ∷ ys) is in
      let other : (a == last_of b ys) ≡ false =
        ==_ne a (last_of b ys) (λ at. cc (has-last_of b e ys)) in
      rw
        (
          head_node q a d ((b, e) ∷ ys) is,
          ne_null q a d ((b, e) ∷ ys) is,
          task_node q a d ((b, e) ∷ ys) is,
          tail_node q a d ((b, e) ∷ ys) is,
          other,
          task_node q a d ((b, e) ∷ ys) is,
          head_node q a d ((b, e) ∷ ys) is,
          load-some b (connection e (first ys) a)
              (record q { heap = update q.heap q.head (some (connection (pos 0) b null)) })
              is.linked.3.3.1 (ground arith),
          load-some a (connection d b q.head)
              (record q {
                heap =
                    update (update q.heap q.head (some (connection (pos 0) b null))) b
                      (some (connection e (first ys) q.head));
              })
              is.linked.3.1 (ground arith),
        )
        refl

  shifted_same : (p : Pointer) → has p ys ≡ true → shifted.heap p ≡ q.heap p
  shifted_same p i =
      let not_a = ne_of_has p a ys i (ground arith) in
      let not_b = ne_of_has p b ys i is.linked.3.3.2 in
      let not_head = ne_of_has p q.head ys i (ground arith) in ground arith

  shifted-Linked : Linked shifted.heap null ((q.head, pos 0) ∷ (b, e) ∷ ys)
  shifted-Linked =
      let n = ne_head q a d ((b, e) ∷ ys) is in
      (
        ground arith,
        is.linked.1,
        ground arith,
        (
          ground arith,
          is.linked.3.3.1,
          is.linked.3.3.2,
          frame ys q.heap shifted.heap b (λ p i. shifted_same p i) is.linked.3.3.3,
        ),
      )

-- On a queue that begins with the node `a`, `_pull_next_task` returns the descriptor `d` of that
-- node, or `false` and -1 for a negative one, and frees the node. What is left is the queue of the
-- other connections, but where that is just one connection, `queue_tail` points into the freed
-- node.
pub pull_next_task-cons :
    (q : Queue) (a : Pointer) (d : ℤ) (xs : Cells) (result : ℤ)
    → IsQueue q ((a, d) ∷ xs)
    → (q' : Queue) × (pull_next_task result q ≡ ok (answer d, q'))
      × (q'.heap a ≡ none)
      × After q' xs
pull_next_task-cons q a d [] result is = (
  emptied q a d result is,
  pull_one q a d result is,
  ground arith,
  emptied-IsQueue q a d result is,
)
pull_next_task-cons q a d ((b, e) ∷ []) result is = (
  shifted q a d b e [] result is,
  pull_more q a d b e [] result is,
  ground arith,
  record {
    linked = shifted-Linked q a d b e [] result is;
    counted = omega (arith, is.counted);
    freed = a;
    tail = is.tail;
    gone = ground arith;
    freed_ne_null = is.linked.3.1;
  },
)
pull_next_task-cons q a d ((b, e) ∷ y ∷ ys) result is = (
  shifted q a d b e (y ∷ ys) result is,
  pull_more q a d b e (y ∷ ys) result is,
  ground arith,
  record {
    linked = shifted-Linked q a d b e (y ∷ ys) result is;
    tail = is.tail;
    counted = omega (arith, is.counted);
  },
)

-- It takes no other address.
pub pull_next_task-unused :
    (q q' : Queue) (a : Pointer) (d : ℤ) (xs : Cells) (result : ℤ)
    → IsQueue q ((a, d) ∷ xs)
    → pull_next_task result q ≡ ok (answer d, q')
    → (q'.head ≡ q.head) × ((p : Pointer) → q.heap p ≡ none → q'.heap p ≡ none)
pull_next_task-unused q q' a d [] result is run =
    let same : emptied q a d result is ≡ q' = cc (pull_one q a d result is) in
    subst (λ r. (r.head ≡ q.head) × ((p : Pointer) → q.heap p ≡ none → r.heap p ≡ none)) same
      (refl, λ p gone. let head = is.linked.0 in ground arith)
pull_next_task-unused q q' a d ((b, e) ∷ ys) result is run =
    let same : shifted q a d b e ys result is ≡ q' = cc (pull_more q a d b e ys result is) in
    subst (λ r. (r.head ≡ q.head) × ((p : Pointer) → q.heap p ≡ none → r.heap p ≡ none)) same
      (refl, λ p gone. let head = is.linked.0 in let next = is.linked.3.3.0 in ground arith)
