-- ===== src/Orchestrator/Events.antt =====
-- The events of orchestrator.c. What `kevent` returns for a change is an argument, and so is what
-- the calls return that are made while an event is processed.
pub mod InOrder
use orb_weaver.ConnectionHandler.{accept_connection}
use orb_weaver.ErrorHandler.{validate_syscall}
use orb_weaver.Orchestrator.Threads.{Threads}
use orb_weaver.Prelude.{
  ℕ, Bool, true, false, not, ◌||◌, List, [], ◌∷◌, ◌++◌, Run, ok, ◌>>=◌, ℤ, pos, negsuc, to_int,
  ◌==◌, if◌then◌else◌, int_equal,
}
use orb_weaver.ThreadHandler.Queue.{Pointer, enqueue_task}

-- What `kevent` is called with, and the descriptor.
pub data Change : Type 0 where
  add : ℤ → Change  -- EV_ADD
  add_dispatch : ℤ → Change  -- EV_ADD | EV_DISPATCH
  delete : ℕ → Change  -- EV_DELETE
  enable : ℕ → Change  -- EV_ENABLE | EV_RECEIPT

-- `struct kevent`: `eof` is `flags & EV_EOF`.
pub record Event : Type 0 where
  pub ident : ℕ
  pub eof : Bool

-- An event, and what `calloc`, `accept` and `setsockopt` return while it is processed.
pub record Arrival : Type 0 where
  pub event : Event
  pub fresh : Pointer
  pub accepted : ℤ
  pub timeout_set : ℤ

pub record Server : Type 0 where
  pub threads : Threads
  pub changes : List Change

module _ (kevent : Change → ℤ) where
  unfoldable pub process_connection_event : ℤ → ℤ → Server → Bool × Server
  process_connection_event accepted timeout_set s =
      let (taken, client_descriptor) = accept_connection accepted timeout_set in
      if not taken || int_equal client_descriptor (negsuc 0) then (false, s) else (
        validate_syscall (kevent (add_dispatch client_descriptor)) true,
        record s { changes = s.changes ++ add_dispatch client_descriptor ∷ [] },
      )

  -- The descriptor is unsigned, so the test for a negative one never holds.
  unfoldable pub process_data_event : Pointer → Event → Server → Run (Bool × Server)
  process_data_event fresh event s = do
    (queued, queue') ← enqueue_task fresh event.ident s.threads.queue
    let s' : Server = record s { threads = record s.threads { queue = queue' } }
    if not queued
        then ok (false, s')
        else if event.eof
        then ok (
          validate_syscall (to_int event.ident) true,
          record s' { changes = s'.changes ++ delete event.ident ∷ [] },
        )
        else ok (true, s')

  -- The body of the `for` loop of `poll_events`, which goes on whatever the result is.
  unfoldable pub process_event : ℤ → Arrival → Server → Run Server
  unfolding process_connection_event process_data_event
  process_event socket_descriptor arrival s =
      if int_equal (to_int arrival.event.ident) socket_descriptor
      then ok (process_connection_event arrival.accepted arrival.timeout_set s).1
      else do (_, s') ← process_data_event arrival.fresh arrival.event s; ok s'

  unfoldable pub process_events : ℤ → List Arrival → Server → Run Server
  process_events socket_descriptor [] s = ok s
  process_events socket_descriptor (arrival ∷ events) s = do
    s' ← process_event socket_descriptor arrival s
    process_events socket_descriptor events s'

  -- `polls` are the events of each call of `kevent` until one fails.
  unfoldable pub poll_events : ℤ → List (List Arrival) → Server → Run (Bool × Server)
  poll_events socket_descriptor [] s = ok (false, s)
  poll_events socket_descriptor (events ∷ polls) s = do
    s' ← process_events socket_descriptor events s
    poll_events socket_descriptor polls s'

  -- `receipt_data` is what `kevent` leaves in `receipt.data`. No other function calls this one.
  unfoldable pub enable_event : ℕ → ℤ → Bool
  enable_event socket_descriptor receipt_data =
      if not (validate_syscall (kevent (enable socket_descriptor)) true)
      then false
      else validate_syscall receipt_data true
