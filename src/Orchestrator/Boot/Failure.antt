-- ===== src/Orchestrator/Boot/Failure.antt =====
-- How `main` ends.
use orb_weaver.Configuration.{Configuration, config}
use orb_weaver.ConnectionHandler.{Sockets, get_socket_descriptor}
use orb_weaver.ErrorHandler.{validate_syscall}
use orb_weaver.Orchestrator.Boot.{
  BootCalls, StartCalls, boot_server, start_processing, no_threads, no_sockets, exit_failure, main,
}
use orb_weaver.Orchestrator.Events.{Change, add, Arrival, Server, process_events, poll_events}
use orb_weaver.Orchestrator.Threads.Release.{creates, init_thread_handler-freed}
use orb_weaver.Orchestrator.Threads.{Threads, free_thread_memory, init_thread_handler}
use orb_weaver.Prelude.{
  arith, ℕ, ◌≡◌, refl, Bool, true, false, not, ◌||◌, List, [], ◌∷◌, ◌++◌, ok, fault, invalid_free,
  ◌>>=◌, Ensures, Ensures-bind, Ensures-if, ℤ, negsuc, is_negative, if◌then◌else◌,
}

abbrev Fails : Bool × Server → Type 0
Fails r = r.0 ≡ false

poll_events-Fails :
    (kevent : Change → ℤ) (socket_descriptor : ℤ) (polls : List (List Arrival)) (s : Server)
    → Ensures Fails (poll_events kevent socket_descriptor polls s)
unfolding poll_events
poll_events-Fails kevent socket_descriptor [] s = refl
poll_events-Fails kevent socket_descriptor (events ∷ polls) s =
    Ensures-bind Fails (process_events kevent socket_descriptor events s) _
      (λ s' _. poll_events-Fails kevent socket_descriptor polls s')

start_processing-Fails :
    {A : Type 0} (calls : StartCalls) (num_cores : ℕ) (sockets : Sockets A) (s : Server)
    → Ensures Fails (start_processing calls num_cores sockets s)
unfolding start_processing
start_processing-Fails calls num_cores sockets s =
    let got = get_socket_descriptor sockets (negsuc 0) in
    Ensures-if Fails (not got.0 || is_negative got.1) _ _ (λ _. refl)
      (λ _.
        Ensures-bind Fails (init_thread_handler calls.thread_calls num_cores s.threads) _ (λ r _.
          Ensures-if Fails (not r.0) _ _ (λ _. refl)
            (λ _.
              Ensures-if Fails (not (validate_syscall calls.kqueue true)) _ _ (λ _. refl)
                (λ _.
                  Ensures-if Fails (not (validate_syscall (calls.kevent (add got.1)) true)) _ _
                    (λ _. refl)
                    (λ _.
                      let s'' : Server = record s {
                        threads = r.1;
                        changes = s.changes ++ add got.1 ∷ [];
                      } in
                      Ensures-bind Fails (poll_events calls.kevent got.1 calls.polls s'') _ (λ q e.
                        polled q
                          (rw e at (poll_events-Fails calls.kevent got.1 calls.polls s''))))))))
  where
    polled :
        (q : Bool × Server)
        → q.0 ≡ false
        → Ensures Fails (if not q.0 then ok (false, q.1) else ok (true, q.1))
    polled q e = rw e refl

abbrev pub IsFailure : ℕ → Type 0
IsFailure status = status ≡ exit_failure

release-IsFailure :
    (t : Threads) → Ensures IsFailure (do (_, _) ← free_thread_memory t; ok exit_failure)
release-IsFailure t =
    Ensures-bind IsFailure (free_thread_memory t) (λ _. ok exit_failure) (λ _ _. refl)

-- `main` never ends with EXIT_SUCCESS: whatever the calls return, a run that ends without a fault
-- has the status EXIT_FAILURE.
pub main-IsFailure :
    {A : Type 0} (boot : BootCalls A) (start : StartCalls) → Ensures IsFailure (main boot start)
unfolding main
main-IsFailure {A} boot start =
    Ensures-bind IsFailure (boot_server boot config no_sockets) _ (λ b _.
      Ensures-if IsFailure (not b.0) _ _ (λ _. release-IsFailure no_threads)
        (λ _.
          let first : Server = record { threads = no_threads; changes = [] } in
          Ensures-bind IsFailure (start_processing start b.1.num_cores b.2 first) _ (λ r e.
            let fails : r.0 ≡ false =
              rw e at (start_processing-Fails start b.1.num_cores b.2 first) in
            Ensures-if IsFailure (not r.0) _ _ (λ _. release-IsFailure r.1.threads)
              (λ t. absurd (ground arith)))))

-- If the server has booted, with a descriptor that is not negative, and the locks and the block of
-- the threads are set up, but one of the `num_cores` threads cannot be created, `main` frees that
-- block twice.
pub main-frees_twice :
    {A : Type 0} (boot : BootCalls A) (start : StartCalls) (c : Configuration) (sockets : Sockets A)
    → boot_server boot config no_sockets ≡ ok (true, c, sockets)
    → is_negative sockets.socket_descriptor ≡ false
    → start.thread_calls.thread_lock_init ≡ 0
    → start.thread_calls.enqueue_lock_init ≡ 0
    → start.thread_calls.cond_init ≡ 0
    → start.thread_calls.threads_memory ≡ true
    → creates start.thread_calls c.num_cores 0 ≡ false
    → main boot start ≡ fault invalid_free
unfolding main start_processing get_socket_descriptor
main-frees_twice boot start c sockets booted bound first second third memory fails =
    let (t, init, twice) =
      init_thread_handler-freed start.thread_calls c.num_cores no_threads first second third memory
        fails in
    rw (booted, bound, bound, init, twice)
