-- ===== src/Orchestrator/Boot/Serves.antt =====
-- `main` where the set-up succeeds.
use orb_weaver.Configuration.{Configuration}
use orb_weaver.Orchestrator.Events.{Server}
use orb_weaver.Orchestrator.Threads.{Threads}
use orb_weaver.Prelude.{◌≡◌}

-- The poll loop leaves the block of the threads alone.
abbrev Keeps : Server → Server → Type 0
Keeps s s' = s'.threads.threads ≡ s.threads.threads
