-- ===== src/ConnectionHandler.antt =====
-- services/tcp/connection-handler/connection_handler.c: the listening socket, and receiving and
-- sending. What a socket call returns is an argument, a function of what it is called for; an
-- `addrinfo *` is a value of a type of its own, and a list of them the `ai_next` chain.
pub mod Bind
pub mod Send
use orb_weaver.ErrorHandler.{validate_syscall}
use orb_weaver.Memory.{Bytes, paste}
use orb_weaver.Prelude.{
  ℕ, zero, suc, ◌+◌, ◌-◌, ◌*◌, ◌^◌, ◌%◌, Bool, true, false, not, Option, none, some, List, [], ◌∷◌,
  ◌++◌, Run, ok, fault, out_of_fuel, ◌>>=◌, ltb, ◌==◌, if◌then◌else◌, length, ℤ, pos, negsuc,
  is_negative, to_int,
}

-- The static variables, and the descriptors that were closed, the last one at the end.
pub record Sockets (A : Type 0) : Type 0 where
  pub socket_descriptor : ℤ
  pub bound_address : Option A
  pub closed : List ℤ

-- The result, and what `*result` holds.
unfoldable pub get_socket_descriptor : {A : Type 0} → Sockets A → ℤ → Bool × ℤ
get_socket_descriptor s result =
    if is_negative s.socket_descriptor then (false, result) else (true, s.socket_descriptor)

module _ {A : Type 0} (socket : A → ℤ) (bind : ℤ → A → ℤ) where
  -- The loop of `find_bind`. `*socket_descriptor` is the static variable for every caller.
  unfoldable pub bind_loop : List A → Sockets A → Sockets A
  bind_loop [] s = s
  bind_loop (address ∷ addresses) s =
      let descriptor = socket address in
      let no_socket = bind_loop addresses (record s { socket_descriptor = descriptor }) in
      let no_bind =
        bind_loop addresses
          (record s { socket_descriptor = negsuc 0; closed = s.closed ++ descriptor ∷ [] }) in
      if is_negative descriptor
      then no_socket
      else if is_negative (bind descriptor address)
      then no_bind
      else record s { socket_descriptor = descriptor; bound_address = some address }

  unfoldable pub find_bind : List A → Sockets A → Bool × Sockets A
  find_bind addresses s =
      let s' = bind_loop addresses s in (not (is_negative s'.socket_descriptor), s')

  -- `listen` by the descriptor and `(int)config.max_connections`. The parameter `bound_address` is
  -- never written.
  unfoldable pub find_listen : (ℤ → ℤ → ℤ) → ℕ → List A → Sockets A → Bool × Sockets A
  find_listen listen max_connections addresses s =
      let (bound, s') = find_bind addresses s in
      if not bound
      then (false, s')
      else (validate_syscall (listen s'.socket_descriptor (to_int max_connections)) true, s')

  -- `connect` by the descriptor and `bound_address`.
  unfoldable pub find_connection : (ℤ → Option A → ℤ) → List A → Sockets A → Bool × Sockets A
  find_connection connect addresses s =
      let (bound, s') = find_bind addresses s in
      if not bound
      then (false, s')
      else if is_negative (connect s'.socket_descriptor s'.bound_address)
      then (false, record s' { closed = s'.closed ++ s'.socket_descriptor ∷ [] })
      else (true, s')

unfoldable pub shutdown_connection : ℤ → Bool
shutdown_connection shutdown_return = validate_syscall shutdown_return true

-- `accepted` is what `accept` returns, and `timeout_set` what `setsockopt` returns. The result, and
-- `*client_descriptor`.
unfoldable pub accept_connection : ℤ → ℤ → Bool × ℤ
accept_connection accepted timeout_set =
    if not (validate_syscall accepted true)
    then (false, negsuc 0)
    else if not (validate_syscall timeout_set true)
    then (false, negsuc 0)
    else (true, accepted)

-- It is the listening socket that is closed.
unfoldable pub close_connection : {A : Type 0} → ℤ → Sockets A → Bool × Sockets A
close_connection client_descriptor s = (
  validate_syscall client_descriptor true,
  record s { closed = s.closed ++ s.socket_descriptor ∷ [] },
)

-- A call of `send`: how far behind `data` it starts, and its length.
abbrev pub Sent : Type 0
Sent = ℕ × ℕ

-- `(size_t)` of what `send` returns, an `ssize_t`
abbrev pub ssize_to_size : ℤ → ℕ
ssize_to_size (pos n) = n
ssize_to_size (negsuc n) = (2 ^ 64 - (n + 1)) % 2 ^ 64

-- The loop of `send_data`, by the number of the round. `bytes_sent` is used in its own initialiser,
-- so what it holds at first is an argument. The result, and the calls of `send`.
unfoldable pub send_loop :
    (ℕ → Sent → ℤ) → (ℕ → ℕ) → ℕ → ℕ → ℕ → ℕ → List Sent → Run (Bool × List Sent)
send_loop send bytes_sent zero round data_length total_bytes_sent calls = fault out_of_fuel
send_loop send bytes_sent (suc fuel) round data_length total_bytes_sent calls =
    let call : Sent = (bytes_sent round, (data_length + 2 ^ 64 - bytes_sent round) % 2 ^ 64) in
    let sent = ssize_to_size (send round call) in
    let rest =
      send_loop send bytes_sent fuel (round + 1) data_length ((total_bytes_sent + sent) % 2 ^ 64)
        (calls ++ call ∷ []) in
    if not (ltb total_bytes_sent data_length)
    then ok (true, calls)
    else if not (validate_syscall (to_int sent) true)
    then ok (false, calls ++ call ∷ [])
    else if sent == 0
    then ok (false, calls ++ call ∷ [])
    else rest

unfoldable pub send_data : (ℕ → Sent → ℤ) → (ℕ → ℕ) → ℕ → Run (Bool × List Sent)
send_data send bytes_sent data_length =
    send_loop send bytes_sent (data_length + 1) 0 data_length 0 []

-- `received` is what `recv` stores, or `none` where it returns a negative number. The result, the
-- buffer and `*num_bytes_read`.
unfoldable pub receive_data : Option Bytes → Bytes → ℕ → Run (Bool × Bytes × ℕ)
receive_data none buffer num_bytes_read = ok (false, buffer, num_bytes_read)
receive_data (some received) buffer num_bytes_read = do
  buffer' ← paste received buffer
  ok (true, buffer', length received)

unfoldable pub get_peer_name : ℤ → Bool
get_peer_name peer_return = validate_syscall peer_return true

unfoldable pub get_host_name : ℤ → Bool
get_host_name host_return = validate_syscall host_return true
