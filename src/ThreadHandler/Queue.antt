-- ===== src/ThreadHandler/Queue.antt =====
-- `queue_head`, `queue_tail` and `num_connections`, with `enqueue_task`, `_pull_next_task` and the
-- set-up of the queue. Each function runs with `enqueue_lock` held, so it is one step on the state.
-- Nodes stand on a heap; `queue_tail` is the address of a pointer: of `queue_head`, or of the
-- `next` field of a node.
pub mod Chain
pub mod Tail
pub mod Enqueue
pub mod Refused
pub mod Stale
pub mod Pull
pub mod Steps
pub mod Client
use orb_weaver.Prelude.{
  ℕ, ◌+◌, ◌-◌, ◌%◌, ◌^◌, Bool, true, false, not, Option, none, some, Run, ok, fault, Fault,
  null_dereference, use_after_free, ℤ, pos, negsuc, is_negative, to_int, ◌==◌, if◌then◌else◌,
}

abbrev pub Pointer : Type 0
Pointer = ℕ

abbrev pub null : Pointer
null = 0

-- `connection_instance`
pub record Connection : Type 0 where
  pub socket_descriptor : ℤ
  pub next : Pointer
  pub previous : Pointer

abbrev pub connection : ℤ → Pointer → Pointer → Connection
connection d n p = record { socket_descriptor = d; next = n; previous = p }

-- A `connection_instance **`
pub data Location : Type 0 where
  queue_head : Location
  next_of : Pointer → Location

abbrev pub Heap : Type 0
Heap = Pointer → Option Connection

abbrev pub update : Heap → Pointer → Option Connection → Heap
update h p c a = if a == p then c else h a

-- `connections` is the bit pattern of the `int` `num_connections`.
pub record Queue : Type 0 where
  pub heap : Heap
  pub head : Pointer
  pub tail : Location
  pub connections : ℕ

abbrev pub Cmd : Type 0 → Type 0
Cmd A = Queue → Run (A × Queue)

abbrev pub pure : {A : Type 0} → A → Cmd A
pure a = λ q. ok (a, q)

abbrev pub and_then : {A B : Type 0} → Run (A × Queue) → (A → Cmd B) → Run (B × Queue)
and_then (ok (a, q)) k = k a q
and_then (fault e) k = fault e

infixl 5 ◌>>=◌ ◌>>◌
abbrev pub ◌>>=◌ : {A B : Type 0} → Cmd A → (A → Cmd B) → Cmd B
m >>= k = λ q. and_then (m q) k

abbrev pub ◌>>◌ : {A B : Type 0} → Cmd A → Cmd B → Cmd B
m >> n = m >>= λ _. n

-- `*p`
unfoldable pub load : Pointer → Cmd Connection
load p q =
    if p == null
    then fault null_dereference
    else elim (q.heap p) [ none ↦ fault use_after_free | some c ↦ ok (c, q) ]

abbrev store : Pointer → Option Connection → Cmd (Unit {0})
store p c q = ok (tt, record q { heap = update q.heap p c })

-- `*queue_tail`
unfoldable pub load_tail : Location → Cmd Pointer
unfolding load
load_tail queue_head q = ok (q.head, q)
load_tail (next_of p) q = (do c ← load p; pure c.next) q

abbrev read_tail : Cmd Pointer
read_tail q = load_tail q.tail q

abbrev read_head : Cmd Pointer
read_head q = ok (q.head, q)

abbrev set_tail : Location → Cmd (Unit {0})
set_tail t q = ok (tt, record q { tail = t })

abbrev set_next : Pointer → Pointer → Cmd (Unit {0})
set_next p n = do c ← load p; store p (some (record c { next = n }))

abbrev set_previous : Pointer → Pointer → Cmd (Unit {0})
set_previous p n = do c ← load p; store p (some (record c { previous = n }))

abbrev set_descriptor : Pointer → ℤ → Cmd (Unit {0})
set_descriptor p d = do c ← load p; store p (some (record c { socket_descriptor = d }))

abbrev free : Pointer → Cmd (Unit {0})
free p = do c ← load p; store p none

abbrev add_connections : ℕ → Cmd (Unit {0})
add_connections n q = ok (tt, record q { connections = (q.connections + n) % 2 ^ 32 })

-- `fresh` is what `calloc` returns.
unfoldable pub enqueue_task : (fresh : Pointer) → ℕ → Cmd Bool
unfolding load load_tail
enqueue_task fresh client_descriptor = do
  last ← read_tail
  found ← load last
  if fresh == null then (do set_next last null; pure false) else do
    store fresh (some (connection (pos 0) null null))
    set_next last fresh
    last ← read_tail
    node ← load last
    set_previous node.next last
    last ← read_tail
    set_tail (next_of last)
    last ← read_tail
    set_descriptor last (to_int client_descriptor)
    add_connections 1
    pure true

-- The result, and what `*result` holds.
unfoldable pub pull_next_task : ℤ → Cmd (Bool × ℤ)
unfolding load load_tail
pull_next_task result = do
  head ← read_head
  sentinel ← load head
  let task = sentinel.next
  if task == null then pure (false, result) else do
    node ← load task
    let descriptor = if is_negative node.socket_descriptor then negsuc 0 else node.socket_descriptor
    last ← read_tail
    (if task == last
        then (do set_next head null; set_tail queue_head)
        else (do second ← load task; set_next head second.next; set_previous second.next head))
    free task
    add_connections (2 ^ 32 - 1)
    pure (not (is_negative descriptor), descriptor)

-- The end of `init_thread_handler`: the placeholder node in front of the queue. `fresh` is what
-- `calloc` returns.
unfoldable pub init_queue : (fresh : Pointer) → Cmd Bool
init_queue fresh q =
    if fresh == null
    then ok (false, record q { head = null })
    else ok (
      true,
      record q {
        heap = update q.heap fresh (some (connection (pos 0) null null));
        head = fresh;
        tail = queue_head;
      },
    )
