-- ===== src/Tests/Events.antt =====
-- The poll loop in front of a queue of two connections.
use orb_weaver.Orchestrator.Events.InOrder.{poll_events-in_order}
use orb_weaver.ConnectionHandler.{accept_connection}
use orb_weaver.ErrorHandler.{validate_syscall}
use orb_weaver.Orchestrator.Events.{add_dispatch, delete, Change, Arrival, Server, poll_events}
use orb_weaver.Orchestrator.Threads.{no_block}
use orb_weaver.Prelude.{◌≡◌, refl, true, false, [], ◌∷◌, arith, ok, ℤ, pos, to_int}
use orb_weaver.Tests.Connections.{queue₂, queue₂-IsQueue}
use orb_weaver.ThreadHandler.Queue.Chain.{IsQueue}

abbrev kevent : Change → ℤ
kevent c = pos 0

abbrev server : Server
server = record { threads = record { threads = no_block; queue = queue₂ }; changes = [] }

-- The listening socket is 5; a new connection gets the descriptor 11.
abbrev connects : Arrival
connects = record {
  event = record { ident = 5; eof = false };
  fresh = 6;
  accepted = pos 11;
  timeout_set = pos 0;
}

abbrev sends : Arrival
sends = record {
  event = record { ident = 8; eof = false };
  fresh = 4;
  accepted = pos 0;
  timeout_set = pos 0;
}

abbrev ends : Arrival
ends = record {
  event = record { ident = 11; eof = true };
  fresh = 5;
  accepted = pos 0;
  timeout_set = pos 0;
}

poll_events-in_order_example :
    (s' : Server) × (poll_events kevent (pos 5) ((connects ∷ sends ∷ []) ∷ (ends ∷ []) ∷ []) server
      ≡ ok (false, s'))
    × IsQueue s'.threads.queue ((2, pos 7) ∷ (3, pos 9) ∷ (4, pos 8) ∷ (5, pos 11) ∷ [])
    × (s'.changes ≡ add_dispatch (pos 11) ∷ delete 11 ∷ [])
unfolding to_int accept_connection validate_syscall
poll_events-in_order_example =
    poll_events-in_order kevent (pos 5) ((connects ∷ sends ∷ []) ∷ (ends ∷ []) ∷ []) server
      ((2, pos 7) ∷ (3, pos 9) ∷ []) queue₂-IsQueue
      (
        ground arith,
        refl,
        (ground arith, (ground arith, tt)),
        (ground arith, refl, (ground arith, tt), (ground arith, refl, tt, tt)),
      )
