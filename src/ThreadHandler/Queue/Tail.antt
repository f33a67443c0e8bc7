-- ===== src/ThreadHandler/Queue/Tail.antt =====
-- Which node `*queue_tail` is.
use orb_weaver.Prelude.{◌≡◌, ◌≢◌, refl, ◌∙◌, sym, ap, some, [], ◌∷◌, arith, ℤ, pos, ok}
use orb_weaver.ThreadHandler.Queue.Chain.{Cells, last_of, Linked, tail_of, before_last-node}
use orb_weaver.ThreadHandler.Queue.{
  Pointer, null, Connection, connection, Location, queue_head, next_of, Heap, Queue, load,
  load_tail,
}

pub load-some :
    (p : Pointer) (c : Connection) (q : Queue) → p ≢ null → q.heap p ≡ some c → load p q ≡ ok (c, q)
unfolding load
load-some p c q ne e = ground arith

-- `*queue_tail` is the node at `l`.
abbrev pub TailAt : Heap → Pointer → Location → Pointer → Type 0
TailAt h head queue_head l = head ≡ l
TailAt h head (next_of b) l = (c : Connection) × (h b ≡ some c) × (b ≢ null) × (c.next ≡ l)

pub load_tail-TailAt :
    (t : Location) (q : Queue) (l : Pointer) → TailAt q.heap q.head t l → load_tail t q ≡ ok (l, q)
unfolding load_tail
load_tail-TailAt queue_head q l at = ap (λ p. ok (p, q)) at
load_tail-TailAt (next_of b) q l (c, found, ne, same) =
    rw (load-some b c q ne found) (ap (λ p. ok (p, q)) same)

pub TailAt-tail_of :
    (xs : Cells) (h : Heap) (head : Pointer)
    → Linked h null ((head, pos 0) ∷ xs)
    → TailAt h head (tail_of head xs) (last_of head xs)
TailAt-tail_of [] h head l = refl
TailAt-tail_of (x ∷ xs) h head l =
    let (e, p, found, ne) = before_last-node head (pos 0) x xs h null l in
    (connection e (last_of head (x ∷ xs)) p, found, ne, refl)

-- A change at the last node and at unused addresses does not move it.
pub TailAt-frame :
    (t : Location) (h h' : Heap) (head l : Pointer) (e : ℤ) (p : Pointer)
    → TailAt h head t l
    → h l ≡ some (connection e null p)
    → l ≢ null
    → ((b : Pointer) (c : Connection) → h b ≡ some c → b ≢ l → h' b ≡ h b)
    → TailAt h' head t l
TailAt-frame queue_head h h' head l e p at last ne same = at
TailAt-frame (next_of b) h h' head l e p (c, found, b_ne, next) last ne same = (
  c,
  same b c found (λ at.
        let both : some c ≡ some (connection e null p) = sym found ∙ ap h at ∙ last in
        ne (ground arith))
      ∙ found,
  b_ne,
  next,
)
