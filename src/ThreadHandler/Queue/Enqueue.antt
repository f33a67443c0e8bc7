-- ===== src/ThreadHandler/Queue/Enqueue.antt =====
-- `enqueue_task` appends to the queue.
use mathlib.Core.Path.{subst}
use orb_weaver.Prelude.{
  ℕ, ◌+◌, ◌%◌, ◌^◌, ◌≡◌, ◌≢◌, refl, ◌∙◌, sym, ap, true, false, some, none, [], ◌∷◌, ◌++◌, arith, ℤ,
  pos, to_int, ◌==◌, length-append, ok,
}
use orb_weaver.ThreadHandler.Queue.Chain.{
  Cells, last_of, before_last, tail_of, IsQueue, not-has_of_none, last_of-node, append-Linked,
}
use orb_weaver.ThreadHandler.Queue.Tail.{
  load-some, TailAt, load_tail-TailAt, TailAt-tail_of, TailAt-frame,
}
use orb_weaver.ThreadHandler.Queue.{
  Pointer, null, connection, next_of, Heap, update, Queue, enqueue_task,
}

-- `enqueue_task` where `*queue_tail` is a node at `l` that ends its chain.
module _ (q : Queue) (l fresh : Pointer) (client : ℕ) (e : ℤ) (p : Pointer)
    (at : TailAt q.heap q.head q.tail l) (node : q.heap l ≡ some (connection e null p))
    (l_ne : l ≢ null) (ne : fresh ≢ null) (unused : q.heap fresh ≡ none) where
  abbrev heap₁ : Heap
  heap₁ = update q.heap fresh (some (connection (pos 0) null null))

  abbrev heap₂ : Heap
  heap₂ = update heap₁ l (some (connection e fresh p))

  abbrev heap₃ : Heap
  heap₃ = update heap₂ fresh (some (connection (pos 0) null l))

  abbrev heap₄ : Heap
  heap₄ = update heap₃ fresh (some (connection (to_int client) null l))

  l_ne_fresh : l ≢ fresh
  l_ne_fresh same = cc

  at₂ : TailAt heap₂ q.head q.tail l
  at₂ = TailAt-frame q.tail q.heap heap₂ q.head l e p at node l_ne (λ b c f n. ground arith)

  at₃ : TailAt heap₃ q.head q.tail l
  at₃ = TailAt-frame q.tail q.heap heap₃ q.head l e p at node l_ne (λ b c f n. ground arith)

  abbrev enqueued : Queue
  enqueued = record {
    heap = heap₄;
    head = q.head;
    tail = next_of l;
    connections = (q.connections + 1) % 2 ^ 32;
  }

  enqueue_task-enqueued : enqueue_task fresh client q ≡ ok (true, enqueued)
  unfolding enqueue_task
  enqueue_task-enqueued =
      let got : (fresh == null) ≡ false = ground arith in
      rw
        (
          load_tail-TailAt q.tail q l at,
          load-some l (connection e null p) q l_ne node,
          got,
          load-some l (connection e null p) (record q { heap = heap₁ }) l_ne
              (ground (arith, l_ne_fresh)),
          load_tail-TailAt q.tail (record q { heap = heap₂ }) l at₂,
          load-some l (connection e fresh p) (record q { heap = heap₂ }) l_ne (ground arith),
          load-some fresh (connection (pos 0) null null) (record q { heap = heap₂ }) ne
              (ground (arith, l_ne_fresh)),
          load_tail-TailAt q.tail (record q { heap = heap₃ }) l at₃,
          load_tail-TailAt (next_of l) (record q { heap = heap₃; tail = next_of l }) fresh
              (connection e fresh p, ground (arith, l_ne_fresh), l_ne, refl),
          load-some fresh (connection (pos 0) null l) (record q { heap = heap₃; tail = next_of l })
              ne (ground arith),
        )
        refl

  heap₄-last :
      (e' : ℤ) (p' : Pointer)
      → q.heap l ≡ some (connection e' null p')
      → heap₄ l ≡ some (connection e' fresh p')
  heap₄-last e' p' node' =
      let both : some (connection e null p) ≡ some (connection e' null p') = sym node ∙ node' in
      ground (arith, l_ne_fresh)

  heap₄-other : (a : Pointer) → a ≢ fresh → a ≢ l → heap₄ a ≡ q.heap a
  heap₄-other a n m = ground arith

before_last-append :
    (a : Pointer) (xs : Cells) (y : Pointer × ℤ) → before_last a (xs ++ y ∷ []) ≡ last_of a xs
before_last-append a [] y = refl
before_last-append a (x ∷ []) y = refl
before_last-append a (x ∷ z ∷ xs) y = before_last-append x.0 (z ∷ xs) y

tail_of-append :
    (a : Pointer) (xs : Cells) (y : Pointer × ℤ) → tail_of a (xs ++ y ∷ []) ≡ next_of (last_of a xs)
tail_of-append a [] y = refl
tail_of-append a (x ∷ xs) y = ap next_of (before_last-append a (x ∷ xs) y)

-- On a queue of the connections `xs`, with an address from `calloc` that is not in use,
-- `enqueue_task` returns `true` and leaves the queue with the new connection behind `xs`.
pub enqueue_task-append :
    (q : Queue) (xs : Cells) (fresh : Pointer) (client : ℕ)
    → IsQueue q xs
    → fresh ≢ null
    → q.heap fresh ≡ none
    → (q' : Queue) × (enqueue_task fresh client q ≡ ok (true, q'))
      × IsQueue q' (xs ++ (fresh, to_int client) ∷ [])
enqueue_task-append q xs fresh client is ne unused =
    let (e, p, found, last_ne) = last_of-node q.head (pos 0) xs q.heap null is.linked in
    let l = last_of q.head xs in
    let at : TailAt q.heap q.head q.tail l =
      subst (λ t. TailAt q.heap q.head t l) (sym is.tail)
        (TailAt-tail_of xs q.heap q.head is.linked) in
    (
      enqueued q l fresh client e p at found last_ne ne unused,
      enqueue_task-enqueued q l fresh client e p at found last_ne ne unused,
      record {
        linked =
            append-Linked xs q.heap _ null q.head (pos 0) fresh (to_int client) is.linked ne
              (not-has_of_none fresh ((q.head, pos 0) ∷ xs) q.heap null is.linked unused)
              (ground arith) (heap₄-last q l fresh client e p at found last_ne ne unused)
              (heap₄-other q l fresh client e p at found last_ne ne unused);
        tail = sym (tail_of-append q.head xs (fresh, to_int client));
        counted = omega (arith, is.counted, length-append xs ((fresh, to_int client) ∷ []));
      },
    )

-- It uses no other address.
pub enqueue_task-unused :
    (q q' : Queue) (xs : Cells) (fresh : Pointer) (client : ℕ)
    → IsQueue q xs
    → fresh ≢ null
    → q.heap fresh ≡ none
    → enqueue_task fresh client q ≡ ok (true, q')
    → (a : Pointer) → a ≢ fresh
    → q.heap a ≡ none
    → q'.heap a ≡ none
enqueue_task-unused q q' xs fresh client is ne unused run a other gone =
    let (e, p, found, last_ne) = last_of-node q.head (pos 0) xs q.heap null is.linked in
    let l = last_of q.head xs in
    let at : TailAt q.heap q.head q.tail l =
      subst (λ t. TailAt q.heap q.head t l) (sym is.tail)
        (TailAt-tail_of xs q.heap q.head is.linked) in
    let run' = enqueue_task-enqueued q l fresh client e p at found last_ne ne unused in
    let same : enqueued q l fresh client e p at found last_ne ne unused ≡ q' = cc in
    subst (λ r. r.heap a ≡ none) same
      (heap₄-other q l fresh client e p at found last_ne ne unused a other (λ at_l. cc) ∙ gone)
