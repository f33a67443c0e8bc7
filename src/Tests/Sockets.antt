-- ===== src/Tests/Sockets.antt =====
-- The listening socket, and what `send` and `recv` do.
use orb_weaver.ConnectionHandler.Bind.{Leaves, find_bind-first_fit}
use orb_weaver.ConnectionHandler.Send.{send_data-ends}
use orb_weaver.ConnectionHandler.{Sockets, Sent, bind_loop, find_bind, send_loop, send_data}
use orb_weaver.ErrorHandler.{validate_syscall}
use orb_weaver.Memory.{Bytes, codes}
use orb_weaver.Prelude.{
  ℕ, ltb, Bool-cases, inl, inr, ◌⊎◌, ◌<◌, ◌^◌, ◌-◌, false, to_int, zero, suc, ◌+◌, ◌≤◌, ◌≡◌, refl,
  true, none, some, [], ◌∷◌, ◌++◌, arith, ok, fault, out_of_bounds, Returns, leb, if◌then◌else◌,
  ◌==◌, length, take, replicate, ℤ, pos, negsuc, length-replicate,
}
use orb_weaver.ThreadHandler.Receive.Contents.{
  get_request_contents-one_chunk, get_request_contents-two_chunks,
  get_request_contents-out_of_bounds,
}
use orb_weaver.ThreadHandler.Receive.Headers.{Accepts, Bounded, get_request_headers-Accepts}
use orb_weaver.ThreadHandler.Receive.{
  Recv, receive_buffer_size, succeeded, get_request_headers, get_request_contents,
}

-- Address 1 gives no socket, 2 cannot be bound, 3 can.
abbrev socket : ℕ → ℤ
socket a = if a == 1 then negsuc 0 else pos (a + 10)

abbrev bind : ℤ → ℕ → ℤ
bind d a = if a == 2 then negsuc 0 else pos 0

abbrev no_sockets : Sockets ℕ
no_sockets = record { socket_descriptor = negsuc 0; bound_address = none; closed = [] }

find_bind_run :
    find_bind socket bind (1 ∷ 2 ∷ 3 ∷ 4 ∷ []) no_sockets
    ≡ (true, record { socket_descriptor = pos 13; bound_address = some 3; closed = pos 12 ∷ [] })
unfolding find_bind bind_loop
find_bind_run = refl

find_bind-first_fit_example :
    ((find_bind socket bind (1 ∷ 2 ∷ 3 ∷ 4 ∷ []) no_sockets).0 ≡ true)
    × Leaves socket bind
        (some 3)
        (pos 12 ∷ [])
        no_sockets
        (find_bind socket bind (1 ∷ 2 ∷ 3 ∷ 4 ∷ []) no_sockets).1
find_bind-first_fit_example = find_bind-first_fit socket bind (1 ∷ 2 ∷ 3 ∷ 4 ∷ []) no_sockets refl

-- Two bytes in each of two calls, and then an error.
abbrev two_bytes : ℕ → Sent → ℤ
two_bytes round call = if ltb round 2 then pos 2 else negsuc 0

two_bytes-small :
    (i : ℕ) (call : Sent)
    → (two_bytes i call ≡ negsuc 0) ⊎ ((n : ℕ) × (two_bytes i call ≡ pos n) × (n < 2 ^ 31))
two_bytes-small i call = elim (Bool-cases (ltb i 2)) [
  | inl early ↦ inr (2, rw early refl, omega arith)
  | inr late ↦ inl (rw late refl)
]

send_data_run :
    send_data two_bytes (λ _. 99) 5
    ≡ ok (false, (99, 2 ^ 64 - 94) ∷ (99, 2 ^ 64 - 94) ∷ (99, 2 ^ 64 - 94) ∷ [])
unfolding send_data send_loop validate_syscall to_int
send_data_run = refl

send_data-ends_example : Returns (send_data two_bytes (λ _. 99) 5) (λ r. length r.1 ≤ 5)
send_data-ends_example = send_data-ends two_bytes (λ _. 99) 5 two_bytes-small (omega arith)

-- A whole header section in the first call, and an error in the second one.
abbrev header_first : Recv
header_first zero size = if leb 18 size then some (codes "GET / HTTP/1.1\r\n\r\n") else none
header_first (suc n) size = none

header_first-Bounded : Bounded header_first
header_first-Bounded zero size = ground arith
header_first-Bounded (suc n) size = ground arith

get_request_headers-Accepts_example :
    Returns
      (get_request_headers header_first (replicate receive_buffer_size 0) 0)
      (Accepts header_first)
get_request_headers-Accepts_example = get_request_headers-Accepts header_first header_first-Bounded

abbrev body : Recv
body n size = if n == 1 then some (codes "ab") else some (codes "cde")

get_request_contents-one_chunk_example :
    (b : Bytes) × (get_request_contents body (some 2) (replicate 32 0) 18 1 ≡ ok (succeeded b 18 2))
    × (length b ≡ 32)
    × (take 20 b ≡ replicate 18 0 ++ codes "ab")
get_request_contents-one_chunk_example =
    get_request_contents-one_chunk body (replicate 32 0) 18 2 1 (codes "ab") (omega arith) refl
      (omega arith) (omega arith) refl

get_request_contents-two_chunks_example :
    get_request_contents body (some 5) (replicate 32 0) 18 1 ≡ fault out_of_bounds
get_request_contents-two_chunks_example =
    get_request_contents-two_chunks body (replicate 32 0) 18 5 1 (codes "ab") (omega arith) refl
      (omega arith) (omega arith) (codes "cde") (omega arith) refl (omega arith) (omega arith)

-- The buffer of `_process_request`, a header section of 8000 bytes and a body of 30000.
abbrev large_body : Recv
large_body n size = some (replicate 30000 b'a')

get_request_contents-out_of_bounds_example :
    get_request_contents large_body (some 30000) (replicate receive_buffer_size 0) 8000 1
    ≡ fault out_of_bounds
get_request_contents-out_of_bounds_example =
    get_request_contents-out_of_bounds large_body (replicate receive_buffer_size 0) 8000 30000 1
      (replicate 30000 b'a') (omega arith) refl (omega (arith, length-replicate {A = ℕ} 30000 b'a'))
      (omega (arith, length-replicate {A = ℕ} 30000 b'a'))
      (omega (
        arith,
        length-replicate {A = ℕ} 30000 b'a',
        length-replicate {A = ℕ} receive_buffer_size 0,
      ))
