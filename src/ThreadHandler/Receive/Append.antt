-- ===== src/ThreadHandler/Receive/Append.antt =====
-- What a chunk does to the buffer that it is appended to.
use orb_weaver.ConnectionHandler.{receive_data}
use orb_weaver.Memory.Text.{paste-front, copy-take, write_at-take, write_at-drop, write_at-outside}
use orb_weaver.Memory.{Bytes}
use orb_weaver.Prelude.{
  ℕ, ◌+◌, ◌≤◌, ◌<◌, ◌≡◌, refl, true, false, none, some, ◌++◌, arith, ok, fault, out_of_bounds,
  length, take, drop, replicate, length-replicate,
}
use orb_weaver.ThreadHandler.Receive.{append_bytes}

-- A received chunk goes behind what the buffer holds.
pub receive-append :
    (buffer received : Bytes) (total size : ℕ)
    → length received ≤ size
    → total + length received ≤ length buffer
    → (source : Bytes) × (b : Bytes) × (receive_data (some received) (replicate size 0) 0
        ≡ ok (true, source, length received))
      × (append_bytes buffer total source (length received) ≡ ok b)
      × (length b ≡ length buffer)
      × (take (total + length received) b ≡ take total buffer ++ received)
      × (drop (total + length received) b ≡ drop (total + length received) buffer)
unfolding receive_data append_bytes
receive-append buffer received total size fits room =
    let zs : length (replicate {A = ℕ} size 0) ≡ size = length-replicate size 0 in
    let (source, pasted, len, front) =
      paste-front received (replicate size 0) (omega (arith, zs)) in
    let (b, written, wide, whole) = write_at-take buffer received total room in
    let (c, written', behind) = write_at-drop buffer received total room in
    let same : c ≡ b = cc in
    (
      source,
      b,
      rw pasted,
      rw (copy-take source (length received) (omega (arith, len, zs)), front) written,
      wide,
      whole,
      rw same at behind,
    )

-- A received chunk that does not fit behind what the buffer holds.
pub receive-outside :
    (buffer received : Bytes) (total size : ℕ)
    → length received ≤ size
    → 0 < length received
    → length buffer < total + length received
    → (source : Bytes) × (receive_data (some received) (replicate size 0) 0
        ≡ ok (true, source, length received))
      × (append_bytes buffer total source (length received) ≡ fault out_of_bounds)
unfolding receive_data append_bytes
receive-outside buffer received total size fits some_bytes room =
    let zs : length (replicate {A = ℕ} size 0) ≡ size = length-replicate size 0 in
    let (source, pasted, len, front) =
      paste-front received (replicate size 0) (omega (arith, zs)) in
    (
      source,
      rw pasted,
      rw (copy-take source (length received) (omega (arith, len, zs)), front)
          (write_at-outside buffer received total some_bytes room),
    )

pub receive_data-none :
    (buffer : Bytes) (n : ℕ) → receive_data none buffer n ≡ ok (false, buffer, n)
unfolding receive_data
receive_data-none buffer n = refl
