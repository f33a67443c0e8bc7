-- ===== src/ThreadHandler/Receive/Contents.antt =====
-- `_get_request_contents`: a body that comes in one chunk, and one that does not.
use mathlib.Core.Path.{subst}
use orb_weaver.ConnectionHandler.{receive_data}
use orb_weaver.Memory.{Bytes}
use orb_weaver.Prelude.{
  ℕ, suc, ◌+◌, ◌-◌, ◌≤◌, ◌<◌, ◌≡◌, ap, ◌∙◌, true, some, ◌++◌, arith, ok, fault, out_of_bounds, ltb,
  lt→ltb, ge→ltb, ==_ne, if◌then◌else◌, length, take, replicate, length-replicate,
}
use orb_weaver.ThreadHandler.Receive.Append.{receive-append, receive-outside}
use orb_weaver.ThreadHandler.Receive.{
  Recv, receive_buffer_size, succeeded, append_bytes, contents_loop, get_request_contents,
}

module _ (recv : Recv) where
  -- What is asked for.
  asked : (left size : ℕ) → left ≤ size → (if ltb left size then left else size) ≡ left
  asked left size h = ground arith

  loop_done :
      (fuel : ℕ) (buffer : Bytes) (total offset size content_length read calls : ℕ)
      → content_length ≤ read
      → contents_loop recv (suc fuel) buffer total offset size content_length read calls
        ≡ ok (succeeded buffer total calls)
  unfolding contents_loop
  loop_done fuel buffer total offset size content_length read calls h =
      rw (ge→ltb read content_length h)

  loop_first :
      (fuel : ℕ) (buffer b source received : Bytes) (total size content_length calls : ℕ)
      → 0 < content_length
      → content_length ≤ size
      → recv calls content_length ≡ some received
      → receive_data (some received) (replicate receive_buffer_size 0) 0
        ≡ ok (true, source, length received)
      → 0 < length received
      → append_bytes buffer total source (length received) ≡ ok b
      → contents_loop recv (suc fuel) buffer total 0 size content_length 0 calls
        ≡ contents_loop recv fuel b total
            (length received)
            content_length
            content_length
            (length received)
            (calls + 1)
  unfolding contents_loop
  loop_first fuel buffer b source received total size content_length calls more fits e got
        some_bytes copied =
      let all : content_length - 0 ≡ content_length = omega arith in
      let none_before : 0 + length received ≡ length received = omega arith in
      rw (
        lt→ltb 0 content_length more,
        all,
        asked content_length size fits,
        e,
        got,
        ge→ltb (length received) 1 (omega arith),
        copied,
        none_before,
      )

  loop_second :
      (fuel : ℕ) (buffer source received : Bytes) (total offset content_length read calls : ℕ)
      → read < content_length
      → recv calls (content_length - read) ≡ some received
      → receive_data (some received) (replicate receive_buffer_size 0) 0
        ≡ ok (true, source, length received)
      → 0 < length received
      → 0 < offset
      → contents_loop recv (suc fuel) buffer total offset content_length content_length read calls
        ≡ fault out_of_bounds
  unfolding contents_loop
  loop_second fuel buffer source received total offset content_length read calls more e got
        some_bytes moved =
      rw (
        lt→ltb read content_length more,
        asked (content_length - read) content_length (omega arith),
        e,
        got,
        ge→ltb (length received) 1 (omega arith),
        ==_ne offset 0 (λ z. omega (arith, z)),
      )

  module _ (buffer : Bytes) (total content_length calls : ℕ) (first : Bytes)
      (fits : content_length ≤ receive_buffer_size) (got : recv calls content_length ≡ some first)
      (some_bytes : 0 < length first) (room : total + length first ≤ length buffer) where
    contents-loop :
        0 < content_length
        → get_request_contents recv (some content_length) buffer total calls
          ≡ contents_loop recv
              (content_length + 1)
              buffer
              total
              0
              receive_buffer_size
              content_length
              0
              calls
    unfolding get_request_contents
    contents-loop more = rw (
      ge→ltb receive_buffer_size content_length fits,
      ==_ne content_length 0 (λ z. omega (arith, z)),
    )

    -- If `recv` gives the whole body, of at most 32768 bytes, in one call, and the body fits into the
    -- buffer behind the header, `_get_request_contents` puts it there and returns `true`; but
    -- `*total_bytes_read` is what it was.
    pub get_request_contents-one_chunk :
        length first ≡ content_length
        → (b : Bytes) × (get_request_contents recv (some content_length) buffer total calls
            ≡ ok (succeeded b total (calls + 1)))
          × (length b ≡ length buffer)
          × (take (total + content_length) b ≡ take total buffer ++ first)
    get_request_contents-one_chunk whole =
        let (source, b, chunk, copied, len, front, _) =
          receive-append buffer first total receive_buffer_size (omega (arith, whole)) room in
        let (n, fuel) : (n : ℕ) × (content_length + 1 ≡ suc (suc n)) =
          (content_length - 1, omega (arith, whole)) in
        (
          b,
          contents-loop (omega (arith, whole))
              ∙ ap
                  (λ k.
                    contents_loop recv k buffer total 0 receive_buffer_size content_length 0 calls)
                  fuel
              ∙ loop_first (suc n) buffer b source first total receive_buffer_size content_length
                  calls (omega (arith, whole)) fits got chunk some_bytes copied
              ∙ loop_done n b total (length first) content_length content_length (length first)
                  (calls + 1) (omega (arith, whole)),
          len,
          subst (λ k. take (total + k) b ≡ take total buffer ++ first) whole front,
        )

    -- If `recv` gives only a part of the body in the first call, and some of the rest, no more than
    -- it was asked for, in the second one, `_get_request_contents` reads `*total_bytes_read` outside
    -- of the caller's variable: the addition behind the first chunk moved the pointer.
    pub get_request_contents-two_chunks :
        (second : Bytes)
        → length first < content_length
        → recv (calls + 1) (content_length - length first) ≡ some second
        → 0 < length second
        → length second ≤ content_length - length first
        → get_request_contents recv (some content_length) buffer total calls ≡ fault out_of_bounds
    get_request_contents-two_chunks second part got' some_more bounded =
        let (source, b, chunk, copied, len, front, _) =
          receive-append buffer first total receive_buffer_size (omega arith) room in
        let (source', _, chunk', _, _, _, _) =
          receive-append (replicate receive_buffer_size 0) second 0 receive_buffer_size
            (omega arith) (omega (arith, length-replicate {A = ℕ} receive_buffer_size 0)) in
        let (n, fuel) : (n : ℕ) × (content_length + 1 ≡ suc (suc n)) =
          (content_length - 1, omega arith) in
        contents-loop (omega arith)
        ∙ ap (λ k. contents_loop recv k buffer total 0 receive_buffer_size content_length 0 calls)
            fuel
        ∙ loop_first (suc n) buffer b source first total receive_buffer_size content_length calls
            (omega arith) fits got chunk some_bytes copied
        ∙ loop_second n b source' second total (length first) content_length (length first)
            (calls + 1) part got' chunk' some_more some_bytes

  loop_outside :
      (fuel : ℕ) (buffer source received : Bytes) (total size content_length calls : ℕ)
      → 0 < content_length
      → content_length ≤ size
      → recv calls content_length ≡ some received
      → receive_data (some received) (replicate receive_buffer_size 0) 0
        ≡ ok (true, source, length received)
      → 0 < length received
      → append_bytes buffer total source (length received) ≡ fault out_of_bounds
      → contents_loop recv (suc fuel) buffer total 0 size content_length 0 calls
        ≡ fault out_of_bounds
  unfolding contents_loop
  loop_outside fuel buffer source received total size content_length calls more fits e got
        some_bytes outside =
      let all : content_length - 0 ≡ content_length = omega arith in
      rw (
        lt→ltb 0 content_length more,
        all,
        asked content_length size fits,
        e,
        got,
        ge→ltb (length received) 1 (omega arith),
        outside,
      )

  -- If the content length is within the limit of 32768, but the first chunk of the body does not fit
  -- into the buffer behind the header, `_get_request_contents` writes outside of the buffer.
  pub get_request_contents-out_of_bounds :
      (buffer : Bytes) (total content_length calls : ℕ) (first : Bytes)
      → content_length ≤ receive_buffer_size
      → recv calls content_length ≡ some first
      → 0 < length first
      → length first ≤ content_length
      → length buffer < total + length first
      → get_request_contents recv (some content_length) buffer total calls ≡ fault out_of_bounds
  unfolding get_request_contents
  get_request_contents-out_of_bounds buffer total content_length calls first fits got some_bytes
        bounded room =
      let (source, chunk, outside) =
        receive-outside buffer first total receive_buffer_size (omega arith) some_bytes room in
      let one : content_length + 1 ≡ suc content_length = omega arith in
      rw
        (
          ge→ltb receive_buffer_size content_length fits,
          ==_ne content_length 0 (λ z. omega (arith, z)),
          one,
        )
        (loop_outside content_length buffer source first total receive_buffer_size content_length
          calls (omega arith) fits got chunk some_bytes outside)
