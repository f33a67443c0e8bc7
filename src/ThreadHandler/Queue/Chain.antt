-- ===== src/ThreadHandler/Queue/Chain.antt =====
-- What the heap holds of a queue: the placeholder and the waiting connections, linked both ways.
use orb_weaver.Prelude.{
  ◌%◌, ◌^◌, ◌≡◌, ◌≢◌, refl, ◌∙◌, Bool, true, false, ◌||◌, some, none, List, [], ◌∷◌, ◌++◌, arith, ℤ,
  pos, ◌==◌, length,
}
use orb_weaver.ThreadHandler.Queue.{
  Pointer, null, connection, Location, queue_head, next_of, Heap, Queue,
}

-- The address and the descriptor of each waiting connection, in order.
abbrev pub Cells : Type 0
Cells = List (Pointer × ℤ)

abbrev pub first : Cells → Pointer
first [] = null
first ((a, _) ∷ xs) = a

abbrev pub has : Pointer → Cells → Bool
has a [] = false
has a ((b, _) ∷ xs) = (a == b) || has a xs

-- The last address of a chain that begins at `a`, and the one before it.
abbrev pub last_of : Pointer → Cells → Pointer
last_of a [] = a
last_of a ((b, _) ∷ xs) = last_of b xs

abbrev pub before_last : Pointer → Cells → Pointer
before_last a [] = a
before_last a (_ ∷ []) = a
before_last a ((b, _) ∷ x ∷ xs) = before_last b (x ∷ xs)

-- Every cell is a node of the heap that points to the cell behind it and to the cell before it.
abbrev pub Linked : Heap → Pointer → Cells → Type 0
Linked h prev [] = Unit
Linked h prev ((a, d) ∷ xs) =
    (h a ≡ some (connection d (first xs) prev)) × (a ≢ null) × (has a xs ≡ false) × Linked h a xs

-- Where `queue_tail` points: at `queue_head` for an empty queue, and else at the `next` field in
-- front of the last node.
abbrev pub tail_of : Pointer → Cells → Location
tail_of head [] = queue_head
tail_of head (x ∷ xs) = next_of (before_last head (x ∷ xs))

-- The queue holds the connections `xs`, in this order.
pub record IsQueue (q : Queue) (xs : Cells) : Type 0 where
  pub linked : Linked q.heap null ((q.head, pos 0) ∷ xs)
  pub tail : q.tail ≡ tail_of q.head xs
  pub counted : q.connections ≡ length xs % 2 ^ 32

-- A change outside a chain keeps it.
pub frame :
    (xs : Cells) (h h' : Heap) (prev : Pointer)
    → ((p : Pointer) → has p xs ≡ true → h' p ≡ h p)
    → Linked h prev xs
    → Linked h' prev xs
frame [] h h' prev same l = tt
frame ((a, d) ∷ xs) h h' prev same (e, ne, new, l) =
    (same a (ground arith) ∙ e, ne, new, frame xs h h' a (λ p i. same p (ground arith)) l)

has-append :
    (p b : Pointer) (d : ℤ) (xs : Cells) → has p (xs ++ (b, d) ∷ []) ≡ (has p xs || (p == b))
has-append p b d [] = ground arith
has-append p b d (x ∷ xs) = ground (arith, has-append p b d xs)

pub has-last_of : (a : Pointer) (d : ℤ) (xs : Cells) → has (last_of a xs) ((a, d) ∷ xs) ≡ true
has-last_of a d [] = ground arith
has-last_of a d ((b, e) ∷ xs) = ground (arith, has-last_of b e xs)

-- A member of a chain is none of the addresses that are outside it.
pub ne_of_has : (p a : Pointer) (xs : Cells) → has p xs ≡ true → has a xs ≡ false → p ≢ a
ne_of_has p a xs i out same = cc

-- An unused address is not in the chain.
pub not-has_of_none :
    (p : Pointer) (xs : Cells) (h : Heap) (prev : Pointer)
    → Linked h prev xs
    → h p ≡ none
    → has p xs ≡ false
not-has_of_none p [] h prev l unused = refl
not-has_of_none p ((a, d) ∷ xs) h prev (e, ne, new, l) unused =
    ground (arith, not-has_of_none p xs h a l unused)

-- The last node points nowhere.
pub last_of-node :
    (a : Pointer) (d : ℤ) (xs : Cells) (h : Heap) (prev : Pointer)
    → Linked h prev ((a, d) ∷ xs)
    → (e : ℤ) × (p : Pointer) × (h (last_of a xs) ≡ some (connection e null p))
      × (last_of a xs ≢ null)
last_of-node a d [] h prev (e, ne, new, l) = (d, prev, e, ne)
last_of-node a d ((b, x) ∷ xs) h prev (e, ne, new, l) = last_of-node b x xs h a l

-- The node before the last one points to the last one.
pub before_last-node :
    (a : Pointer) (d : ℤ) (x : Pointer × ℤ) (xs : Cells) (h : Heap) (prev : Pointer)
    → Linked h prev ((a, d) ∷ x ∷ xs)
    → (e : ℤ) × (p : Pointer) × (h (before_last a (x ∷ xs))
        ≡ some (connection e (last_of a (x ∷ xs)) p))
      × (before_last a (x ∷ xs) ≢ null)
before_last-node a d (b, x) [] h prev (e, ne, new, l) = (d, prev, e, ne)
before_last-node a d (b, x) (y ∷ xs) h prev (e, ne, new, l) = before_last-node b x y xs h a l

-- A new node behind the last one.
pub append-Linked :
    (xs : Cells) (h h' : Heap) (prev a : Pointer) (d : ℤ) (fresh : Pointer) (d' : ℤ)
    → Linked h prev ((a, d) ∷ xs)
    → fresh ≢ null
    → has fresh ((a, d) ∷ xs) ≡ false
    → h' fresh ≡ some (connection d' null (last_of a xs))
    → ((e : ℤ) (p : Pointer)
        → h (last_of a xs) ≡ some (connection e null p)
        → h' (last_of a xs) ≡ some (connection e fresh p))
    → ((p : Pointer) → p ≢ fresh → p ≢ last_of a xs → h' p ≡ h p)
    → Linked h' prev ((a, d) ∷ (xs ++ (fresh, d') ∷ []))
append-Linked [] h h' prev a d fresh d' (e, ne, new, l) some_fresh out node change same =
    (change d prev e, ne, ground arith, (node, some_fresh, refl, tt))
append-Linked ((b, x) ∷ xs) h h' prev a d fresh d' (e, ne, new, l) some_fresh out node change same =
    (
      same a (ground arith) (λ at. cc (has-last_of b x xs)) ∙ e,
      ne,
      ground (arith, has-append a fresh d' xs),
      append-Linked xs h h' a b x fresh d' l some_fresh (ground arith) node change same,
    )
