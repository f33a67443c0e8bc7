-- ===== src/Orchestrator/Events/InOrder.antt =====
-- The poll loop puts the descriptors of the data events into the queue, in order.
use mathlib.Core.List.{append_assoc, append-nil}
use orb_weaver.ConnectionHandler.{accept_connection}
use orb_weaver.Orchestrator.Events.{
  Change, add_dispatch, delete, Arrival, Server, process_connection_event, process_data_event,
  process_event, process_events, poll_events,
}
use orb_weaver.Prelude.{
  ◌≡◌, ◌≢◌, not, ◌||◌, negsuc, refl, sym, ◌∙◌, ap, Bool, true, false, none, List, [], ◌∷◌, ◌++◌,
  arith, ok, ◌>>=◌, Returns, bind_assoc_of, int_equal, ℤ, to_int, if◌then◌else◌, Bool-cases, inl,
  inr,
}
use orb_weaver.ThreadHandler.Queue.Chain.{Cells, IsQueue}
use orb_weaver.ThreadHandler.Queue.Enqueue.{enqueue_task-append, enqueue_task-unused}
use orb_weaver.ThreadHandler.Queue.{Pointer, null, Heap}

abbrev pub flatten : {A : Type 0} → List (List A) → List A
flatten [] = []
flatten (xs ∷ rest) = xs ++ flatten rest

abbrev pub is_connection : ℤ → Arrival → Bool
is_connection socket_descriptor arrival = int_equal (to_int arrival.event.ident) socket_descriptor

-- The address and the descriptor of each data event.
abbrev pub tasks : ℤ → List Arrival → Cells
tasks socket_descriptor [] = []
tasks socket_descriptor (arrival ∷ rest) =
    if is_connection socket_descriptor arrival
    then tasks socket_descriptor rest
    else (arrival.fresh, to_int arrival.event.ident) ∷ tasks socket_descriptor rest

-- What `kevent` is called with for an event, where `calloc` gives a node.
abbrev pub change_of : ℤ → Arrival → List Change
change_of socket_descriptor arrival =
    if is_connection socket_descriptor arrival
    then (let (taken, client) = accept_connection arrival.accepted arrival.timeout_set in
        if not taken || int_equal client (negsuc 0) then [] else add_dispatch client ∷ [])
    else if arrival.event.eof
    then delete arrival.event.ident ∷ []
    else []

abbrev pub changes_of : ℤ → List Arrival → List Change
changes_of socket_descriptor [] = []
changes_of socket_descriptor (arrival ∷ rest) =
    change_of socket_descriptor arrival ++ changes_of socket_descriptor rest

abbrev pub Avoids : Pointer → List Arrival → Type 0
Avoids p [] = Unit
Avoids p (arrival ∷ rest) = (arrival.fresh ≢ p) × Avoids p rest

-- The addresses from `calloc` are not null, not in use, and all different.
abbrev pub Unused : Heap → List Arrival → Type 0
Unused h [] = Unit
Unused h (arrival ∷ rest) =
    (arrival.fresh ≢ null) × (h arrival.fresh ≡ none) × Avoids arrival.fresh rest × Unused h rest

pub Unused-frame :
    (h h' : Heap) (p : Pointer) (events : List Arrival)
    → ((a : Pointer) → a ≢ p → h a ≡ none → h' a ≡ none)
    → Avoids p events
    → Unused h events
    → Unused h' events
Unused-frame h h' p [] keep avoids unused = tt
Unused-frame h h' p (arrival ∷ rest) keep (other, avoids) (ne, gone, new, unused) =
    (ne, keep arrival.fresh other gone, new, Unused-frame h h' p rest keep avoids unused)

module _ (kevent : Change → ℤ) (socket_descriptor : ℤ) where
  pub connection-queue :
      (accepted timeout_set : ℤ) (s : Server)
      → (process_connection_event kevent accepted timeout_set s).1.threads ≡ s.threads
  unfolding process_connection_event
  connection-queue accepted timeout_set s = ground arith

  connection-changes :
      (arrival : Arrival) (s : Server)
      → is_connection socket_descriptor arrival ≡ true
      → (process_connection_event kevent arrival.accepted arrival.timeout_set s).1.changes
        ≡ s.changes ++ change_of socket_descriptor arrival
  unfolding process_connection_event
  connection-changes arrival s connection =
      let (taken, client) = accept_connection arrival.accepted arrival.timeout_set in
      elim (Bool-cases (not taken || int_equal client (negsuc 0))) [
        | inl refused ↦ rw (connection, refused) (sym (append-nil s.changes))
        | inr accepted ↦ rw (connection, accepted) refl
      ]

  pub connection-event :
      (arrival : Arrival) (s : Server)
      → is_connection socket_descriptor arrival ≡ true
      → process_event kevent socket_descriptor arrival s
        ≡ ok (process_connection_event kevent arrival.accepted arrival.timeout_set s).1
  unfolding process_event
  connection-event arrival s connection = rw connection

  -- A data event.
  data-append :
      (arrival : Arrival) (s : Server) (cells : Cells)
      → is_connection socket_descriptor arrival ≡ false
      → IsQueue s.threads.queue cells
      → arrival.fresh ≢ null
      → s.threads.queue.heap arrival.fresh ≡ none
      → (s' : Server) × (process_event kevent socket_descriptor arrival s ≡ ok s')
        × IsQueue s'.threads.queue (cells ++ (arrival.fresh, to_int arrival.event.ident) ∷ [])
        × (s'.changes ≡ s.changes ++ change_of socket_descriptor arrival)
        × ((a : Pointer)
            → a ≢ arrival.fresh
            → s.threads.queue.heap a ≡ none
            → s'.threads.queue.heap a ≡ none)
  unfolding process_event process_data_event
  data-append arrival s cells data_event is ne gone =
      let (q, run, is') =
        enqueue_task-append s.threads.queue cells arrival.fresh arrival.event.ident is ne gone in
      let keep =
        enqueue_task-unused s.threads.queue q cells arrival.fresh arrival.event.ident is ne gone
          run in
      let s' : Server = record s { threads = record s.threads { queue = q } } in
      elim (Bool-cases arrival.event.eof) [
        | inl last ↦ (
          record s' { changes = s'.changes ++ delete arrival.event.ident ∷ [] },
          rw (data_event, run, last),
          is',
          rw (data_event, last) refl,
          keep,
        )
        | inr more ↦ (
          s',
          rw (data_event, run, more),
          is',
          rw (data_event, more) (sym (append-nil s.changes)),
          keep,
        )
      ]

  log_step :
      (s s' t : Server) (arrival : Arrival) (events : List Arrival)
      → s'.changes ≡ s.changes ++ change_of socket_descriptor arrival
      → t.changes ≡ s'.changes ++ changes_of socket_descriptor events
      → t.changes ≡ s.changes ++ changes_of socket_descriptor (arrival ∷ events)
  log_step s s' t arrival events first rest =
      rest
      ∙ ap (◌++ changes_of socket_descriptor events) first
      ∙ append_assoc s.changes (change_of socket_descriptor arrival)
          (changes_of socket_descriptor events)

  process_events-append :
      (events : List Arrival) (s : Server) (cells : Cells)
      → IsQueue s.threads.queue cells
      → Unused s.threads.queue.heap events
      → Returns (process_events kevent socket_descriptor events s) (λ s'.
        IsQueue s'.threads.queue (cells ++ tasks socket_descriptor events)
        × (s'.changes ≡ s.changes ++ changes_of socket_descriptor events))
  unfolding process_events
  process_events-append [] s cells is unused =
      (s, refl, (rw append-nil is, sym (append-nil s.changes)))
  process_events-append (arrival ∷ events) s cells is (ne, gone, new, unused) =
      elim (Bool-cases (is_connection socket_descriptor arrival)) [
        | inl connection ↦
            let s' = (process_connection_event kevent arrival.accepted arrival.timeout_set s).1 in
            let kept : s'.threads ≡ s.threads =
              connection-queue arrival.accepted arrival.timeout_set s in
            let run : process_event kevent socket_descriptor arrival s ≡ ok s' =
              connection-event arrival s connection in
            let (t, rest, (is', log)) =
              process_events-append events s' cells (rw kept is) (rw kept unused) in
            (
              t,
              rw run rest,
              (
                rw connection is',
                log_step s s' t arrival events (connection-changes arrival s connection) log,
              ),
            )
        | inr data_event ↦
            let (s', run, is', logged, keep) = data-append arrival s cells data_event is ne gone in
            let (t, rest, (is'', log)) =
              process_events-append events s'
                (cells ++ (arrival.fresh, to_int arrival.event.ident) ∷ []) is'
                (Unused-frame s.threads.queue.heap s'.threads.queue.heap arrival.fresh events keep
                  new unused) in
            (
              t,
              rw run rest,
              (
                rw
                    (
                      data_event,
                      ← append_assoc cells ((arrival.fresh, to_int arrival.event.ident) ∷ [])
                          (tasks socket_descriptor events),
                    )
                    is'',
                log_step s s' t arrival events logged log,
              ),
            )
      ]

  process_events-flatten :
      (first second : List Arrival) (s : Server)
      → process_events kevent socket_descriptor (first ++ second) s ≡ (
          process_events kevent socket_descriptor first s
          >>= process_events kevent socket_descriptor second)
  unfolding process_events
  process_events-flatten [] second s = refl
  process_events-flatten (arrival ∷ first) second s =
      bind_assoc_of (process_event kevent socket_descriptor arrival s) _ _ _
        (λ s'. process_events-flatten first second s')

  poll_events-flatten :
      (polls : List (List Arrival)) (s : Server)
      → poll_events kevent socket_descriptor polls s
        ≡ (process_events kevent socket_descriptor (flatten polls) s >>= λ s'. ok (false, s'))
  unfolding poll_events process_events
  poll_events-flatten [] s = refl
  poll_events-flatten (events ∷ polls) s =
      bind_assoc_of (process_events kevent socket_descriptor events s) _ _ _
        (λ s'. poll_events-flatten polls s')
      ∙ ap (λ r. r >>= λ t. ok (false, t)) (sym (process_events-flatten events (flatten polls) s))

  -- On a queue of the connections `cells`, with addresses from `calloc` that are not in use and all
  -- different, `poll_events` returns `false` when `kevent` fails, and has put the descriptors of all
  -- data events of all polls behind `cells`, in the order of their arrival; events of the listening
  -- socket in between leave the queue alone. It has called `kevent` to add the connection of each of
  -- those that could be accepted, to be reported once, to delete the descriptor of each data event
  -- with `EV_EOF`, and for nothing else, in that order.
  pub poll_events-in_order :
      (polls : List (List Arrival)) (s : Server) (cells : Cells)
      → IsQueue s.threads.queue cells
      → Unused s.threads.queue.heap (flatten polls)
      → (s' : Server) × (poll_events kevent socket_descriptor polls s ≡ ok (false, s'))
        × IsQueue s'.threads.queue (cells ++ tasks socket_descriptor (flatten polls))
        × (s'.changes ≡ s.changes ++ changes_of socket_descriptor (flatten polls))
  poll_events-in_order polls s cells is unused =
      let (s', run, (is', log)) = process_events-append (flatten polls) s cells is unused in
      (s', poll_events-flatten polls s ∙ ap (λ r. r >>= λ t. ok (false, t)) run, is', log)
