-- ===== src/Orchestrator/Boot.antt =====
-- `boot_server` and `start_processing` of orchestrator.c, and main.c.
pub mod Failure
pub mod Serves
use orb_weaver.Configuration.{Configuration, config, initialize_configuration}
use orb_weaver.ConnectionHandler.{Sockets, get_socket_descriptor, find_listen}
use orb_weaver.ErrorHandler.{validate_syscall}
use orb_weaver.HostResolver.{get_local_addresses}
use orb_weaver.Memory.{Bytes}
use orb_weaver.Orchestrator.Events.{Change, add, Arrival, Server, poll_events}
use orb_weaver.Orchestrator.Threads.{
  no_block, Threads, free_thread_memory, ThreadCalls, init_thread_handler,
}
use orb_weaver.Prelude.{
  ℕ, Bool, true, false, not, ◌||◌, Option, none, some, List, [], ◌∷◌, ◌++◌, Run, ok, ◌>>=◌, ℤ,
  negsuc, is_negative, if◌then◌else◌,
}
use orb_weaver.ThreadHandler.Queue.{null, queue_head}

-- What the calls of `boot_server` return, and the files that they read.
pub record BootCalls (A : Type 0) : Type 0 where
  pub folder : Bool
  pub file : Option (List Bytes)
  pub sysctl_status : ℤ
  pub num_cores : ℤ
  pub getaddrinfo : Bytes → ℤ × List A
  pub port_string : Option Bytes
  pub socket : A → ℤ
  pub bind : ℤ → A → ℤ
  pub listen : ℤ → ℤ → ℤ

-- What the calls of `start_processing` return; `polls` are the events until `kevent` fails.
pub record StartCalls : Type 0 where
  pub thread_calls : ThreadCalls
  pub kqueue : ℤ
  pub kevent : Change → ℤ
  pub polls : List (List Arrival)

unfoldable pub boot_server :
    {A : Type 0} → BootCalls A → Configuration → Sockets A → Run (Bool × Configuration × Sockets A)
unfolding initialize_configuration get_local_addresses find_listen
boot_server calls c s = do
  (configured, c') ←
      initialize_configuration calls.folder calls.file calls.sysctl_status calls.num_cores c
  if not configured then ok (false, c', s) else do
    (found, addresses) ← get_local_addresses calls.getaddrinfo calls.port_string c'.port
    if not found
        then ok (false, c', s)
        else (let (listens, s') =
              find_listen calls.socket calls.bind calls.listen c'.max_connections addresses s in
            ok (listens, c', s'))

unfoldable pub start_processing :
    {A : Type 0} → StartCalls → ℕ → Sockets A → Server → Run (Bool × Server)
unfolding get_socket_descriptor init_thread_handler poll_events
start_processing calls num_cores sockets s =
    let (got, socket_descriptor) = get_socket_descriptor sockets (negsuc 0) in
    if not got || is_negative socket_descriptor then ok (false, s) else do
      (ready, t) ← init_thread_handler calls.thread_calls num_cores s.threads
      let s' : Server = record s { threads = t }
      if not ready
          then ok (false, s')
          else if not (validate_syscall calls.kqueue true)
          then ok (false, s')
          else (let s'' : Server = record s' {
            changes = s'.changes ++ add socket_descriptor ∷ [];
          } in
              if not (validate_syscall (calls.kevent (add socket_descriptor)) true)
              then ok (false, s'')
              else do
                (polled, s₃) ← poll_events calls.kevent socket_descriptor calls.polls s''
                if not polled then ok (false, s₃) else ok (true, s₃))

-- The static variables at the start.
abbrev pub no_threads : Threads
no_threads = record {
  threads = no_block;
  queue = record { heap = λ _. none; head = null; tail = queue_head; connections = 0 };
}

abbrev pub no_sockets : {A : Type 0} → Sockets A
no_sockets = record { socket_descriptor = negsuc 0; bound_address = none; closed = [] }

abbrev pub exit_success : ℕ
exit_success = 0

abbrev pub exit_failure : ℕ
exit_failure = 1

-- The exit status.
unfoldable pub main : {A : Type 0} → BootCalls A → StartCalls → Run ℕ
unfolding boot_server start_processing free_thread_memory
main {A} boot start = do
  (booted, c, sockets) ← boot_server boot config (no_sockets {A = A})
  if not booted then (do (_, _) ← free_thread_memory no_threads; ok exit_failure) else do
    (started, s) ←
        start_processing start c.num_cores sockets (record { threads = no_threads; changes = [] })
    if not started
        then (do (_, _) ← free_thread_memory s.threads; ok exit_failure)
        else (do (_, _) ← free_thread_memory s.threads; ok exit_success)
