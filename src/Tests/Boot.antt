-- ===== src/Tests/Boot.antt =====
-- The boot, and the end of `main`.
use orb_weaver.Configuration.{
  Configuration, config, parse_lines, parse_configuration, initialize_configuration,
}
use orb_weaver.ConnectionHandler.{Sockets, bind_loop, find_bind, find_listen}
use orb_weaver.ErrorHandler.{validate_syscall}
use orb_weaver.HostResolver.Port.{get_local_addresses-port}
use orb_weaver.HostResolver.{get_local_addresses}
use orb_weaver.Memory.Text.{text}
use orb_weaver.Memory.{Bytes, write}
use orb_weaver.Orchestrator.Boot.Failure.{main-frees_twice}
use orb_weaver.Orchestrator.Boot.{BootCalls, StartCalls, boot_server, no_sockets, main}
use orb_weaver.Prelude.{
  ℕ, ◌≡◌, refl, true, false, some, List, [], ◌∷◌, arith, ok, fault, out_of_bounds, invalid_free,
  replicate, ℤ, pos, to_int, ◌==◌, if◌then◌else◌,
}
use orb_weaver.StringTools.{count_loop, digit_loop, size_t_to_string}

-- One address, `1`, for every port.
abbrev getaddrinfo : Bytes → ℤ × List ℕ
getaddrinfo port = (pos 0, 1 ∷ [])

abbrev eight_bytes : Bytes
eight_bytes = replicate 8 0xaa

get_local_addresses-port_example :
    get_local_addresses getaddrinfo (some eight_bytes) 8080 ≡ ok (true, 1 ∷ [])
get_local_addresses-port_example =
    get_local_addresses-port getaddrinfo eight_bytes 8080 refl (omega arith)

too_large : get_local_addresses getaddrinfo (some eight_bytes) 10000000 ≡ fault out_of_bounds
too_large = get_local_addresses-port getaddrinfo eight_bytes 10000000 refl (omega arith)

-- An empty configuration file, two cores, and calls that succeed.
abbrev boot : BootCalls ℕ
boot = record {
  folder = true;
  file = some [];
  sysctl_status = pos 0;
  num_cores = pos 2;
  getaddrinfo = getaddrinfo;
  port_string = some eight_bytes;
  socket = λ a. pos 3;
  bind = λ d a. pos 0;
  listen = λ d n. pos 0;
}

-- The second thread cannot be created: its id stays -1.
abbrev start : StartCalls
start = record {
  thread_calls = record {
    thread_lock_init = 0;
    enqueue_lock_init = 0;
    cond_init = 0;
    threads_memory = true;
    create = λ cursor. if cursor == 0 then pos 0 else pos 35;
    thread_id_set = λ cursor. cursor == 0;
    head = 1;
  };
  kqueue = pos 4;
  kevent = λ c. pos 0;
  polls = [];
}

abbrev two_cores : Configuration
two_cores = record config { num_cores = 2 }

abbrev listening : Sockets ℕ
listening = record { socket_descriptor = pos 3; bound_address = some 1; closed = [] }

booted : boot_server boot config no_sockets ≡ ok (true, two_cores, listening)
unfolding boot_server initialize_configuration parse_configuration parse_lines validate_syscall
    get_local_addresses text size_t_to_string count_loop digit_loop write find_listen find_bind
    bind_loop to_int
booted = refl

main-frees_twice_example : main boot start ≡ fault invalid_free
unfolding validate_syscall
main-frees_twice_example =
    main-frees_twice boot start two_cores listening booted refl refl refl refl refl refl

-- All threads are created; the events are a connection and a request on it.
abbrev good_start : StartCalls
good_start = record start {
  thread_calls = record start.thread_calls { create = λ cursor. pos 0; thread_id_set = λ c. true };
  polls =
      (record {
        event = record { ident = 3; eof = false };
        fresh = 6;
        accepted = pos 11;
        timeout_set = pos 0;
      }
        ∷ [])
      ∷ (record {
        event = record { ident = 11; eof = true };
        fresh = 4;
        accepted = pos 0;
        timeout_set = pos 0;
      }
          ∷ [])
      ∷ [];
}
