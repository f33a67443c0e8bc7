-- ===== src/ThreadHandler/Receive/Headers.antt =====
-- `_get_request_headers` ends, and what it accepts is what was received.
use mathlib.Core.Path.{subst}
use orb_weaver.ConnectionHandler.{receive_data}
use orb_weaver.HttpTypes.{max_http_header_line_size}
use orb_weaver.Memory.{Bytes}
use orb_weaver.Prelude.{
  ℕ, zero, suc, ◌+◌, ◌-◌, ◌≤◌, ◌<◌, ◌≡◌, ◌⊎◌, inl, inr, refl, sym, ap, ◌∙◌, true, false, Option,
  none, some, [], ◌++◌, arith, ok, Returns, Bool, ltb, ltb→lt, ltb→ge, Bool-cases, Option-cases,
  length, length-append, take, drop, drop-drop, drop-replicate, replicate, length-replicate,
}
use orb_weaver.ThreadHandler.Receive.Append.{receive-append, receive_data-none}
use orb_weaver.ThreadHandler.Receive.{
  Recv, receive_buffer_size, end_of_buffer, memmem, Received, succeeded, failed, append_bytes,
  headers_loop, get_request_headers,
}

-- What was received in a call.
abbrev pub bytes_of : Option Bytes → Bytes
bytes_of none = []
bytes_of (some bytes) = bytes

-- What was received in the first `n` calls.
abbrev pub stream : Recv → ℕ → Bytes
stream recv zero = []
stream recv (suc n) = stream recv n ++ bytes_of (recv n (max_http_header_line_size - 1))

-- `recv` stores no more than it was asked for.
abbrev pub Bounded : Recv → Type 0
Bounded recv = (n size : ℕ) → length (bytes_of (recv n size)) ≤ size

abbrev pub ended : Recv → ℕ → Bool
ended recv k = memmem (stream recv k) end_of_buffer

-- Call `j` gives some bytes, and not too much in all.
abbrev pub Continues : Recv → ℕ → Type 0
Continues recv j =
    (received : Bytes) × (recv j (max_http_header_line_size - 1) ≡ some received)
    × (0 < length received)
    × (length (stream recv (suc j)) ≤ max_http_header_line_size)

-- `true`, and the bytes of the first `k` calls at the front of the buffer, with zeros behind them.
abbrev pub Found : Recv → ℕ → Received → Type 0
Found recv k out =
    (ended recv k ≡ true)
    × (b : Bytes) × (out ≡ succeeded b (length (stream recv k)) k)
    × (length b ≡ receive_buffer_size)
    × (length (stream recv k) ≤ max_http_header_line_size)
    × (take (length (stream recv k)) b ≡ stream recv k)
    × (drop (length (stream recv k)) b ≡ replicate (receive_buffer_size - length (stream recv k)) 0)

-- `false` and no buffer, where call `k` fails, gives nothing, or gives too much.
abbrev pub Refused : Recv → ℕ → Received → Type 0
Refused recv k out =
    (ended recv k ≡ false)
    × (out ≡ failed (length (stream recv k)) (k + 1))
    × ((recv k (max_http_header_line_size - 1) ≡ none)
        ⊎ ((length (stream recv (suc k)) ≡ length (stream recv k))
            ⊎ (max_http_header_line_size < length (stream recv (suc k)))))

-- What `_get_request_headers` returns, where each of the first `k` calls gives some bytes and is
-- needed, and either they hold the end of the header section, or call `k` ends it.
abbrev pub Accepts : Recv → Received → Type 0
Accepts recv out =
    (k : ℕ) × ((j : ℕ) → j < k → (ended recv j ≡ false) × Continues recv j)
    × (Found recv k out ⊎ Refused recv k out)

module _ (recv : Recv) where
  headers_loop-step :
      (fuel : ℕ) (buffer b source received : Bytes) (total calls : ℕ)
      → memmem (take total buffer) end_of_buffer ≡ false
      → recv calls (max_http_header_line_size - 1) ≡ some received
      → receive_data (some received) (replicate max_http_header_line_size 0) 0
        ≡ ok (true, source, length received)
      → ltb max_http_header_line_size (total + length received) ≡ false
      → ltb (length received) 1 ≡ false
      → append_bytes buffer total source (length received) ≡ ok b
      → headers_loop recv (suc fuel) buffer total calls
        ≡ headers_loop recv fuel b (total + length received) (suc calls)
  unfolding headers_loop
  headers_loop-step fuel buffer b source received total calls more e got within some_bytes copied =
      let one : calls + 1 ≡ suc calls = omega arith in
      rw (more, e, got, within, some_bytes, copied, one)

module _ (recv : Recv) (bounded : Bounded recv) where
  stream-suc :
      (calls total : ℕ) (received : Bytes)
      → total ≡ length (stream recv calls)
      → recv calls (max_http_header_line_size - 1) ≡ some received
      → (stream recv (suc calls) ≡ stream recv calls ++ received)
        × (total + length received ≡ length (stream recv (suc calls)))
  stream-suc calls total received counted e =
      let streamed : stream recv (suc calls) ≡ stream recv calls ++ received =
        ap (λ o. stream recv calls ++ bytes_of o) e in
      (
        streamed,
        ap (◌+ length received) counted
            ∙ sym (ap length streamed ∙ length-append (stream recv calls) received),
      )

  -- The first `n` calls of a run that goes on.
  earlier-suc :
      (n : ℕ)
      → ((j : ℕ) → j < n → (ended recv j ≡ false) × Continues recv j)
      → (ended recv n ≡ false) × Continues recv n
      → (j : ℕ) → j < suc n
      → (ended recv j ≡ false) × Continues recv j
  earlier-suc n earlier last j lt = elim (Bool-cases (ltb j n)) [
    | inl below ↦ earlier j (ltb→lt j n below)
    | inr above ↦
        let ge = ltb→ge j n above in
        let same : n ≡ j = omega arith in
        subst (λ i. (ended recv i ≡ false) × Continues recv i) same last
  ]

  -- A chunk is taken from the zeros behind the bytes.
  zeros-suc :
      (buffer b : Bytes) (total n : ℕ)
      → drop total buffer ≡ replicate (receive_buffer_size - total) 0
      → drop (total + n) b ≡ drop (total + n) buffer
      → total + n ≤ receive_buffer_size
      → drop (total + n) b ≡ replicate (receive_buffer_size - (total + n)) 0
  zeros-suc buffer b total n zeros behind room =
      behind
      ∙ drop-drop total n buffer
      ∙ ap (drop n) zeros
      ∙ drop-replicate (receive_buffer_size - total) n 0 (omega arith)
      ∙ ap (λ k. replicate k 0)
          (let k : receive_buffer_size - total - n ≡ receive_buffer_size - (total + n) =
              omega arith in
            k)

  headers_loop-Accepts :
      (fuel : ℕ) (buffer : Bytes) (total calls : ℕ)
      → ((j : ℕ) → j < calls → (ended recv j ≡ false) × Continues recv j)
      → total ≡ length (stream recv calls)
      → take total buffer ≡ stream recv calls
      → length buffer ≡ receive_buffer_size
      → drop total buffer ≡ replicate (receive_buffer_size - total) 0
      → total ≤ max_http_header_line_size
      → max_http_header_line_size - total < fuel
      → Returns (headers_loop recv fuel buffer total calls) (Accepts recv)
  unfolding headers_loop
  headers_loop-Accepts zero buffer total calls earlier counted held wide zeros small enough =
      absurd (omega arith)
  headers_loop-Accepts (suc fuel) buffer total calls earlier counted held wide zeros small enough =
      elim (Bool-cases (memmem (take total buffer) end_of_buffer)) [
        | inl end ↦ (
          succeeded buffer total calls,
          rw end,
          (
            calls,
            earlier,
            inl (
              rw held at end,
              buffer,
              ap (λ n. succeeded buffer n calls) counted,
              wide,
              rw counted at small,
              rw counted at held,
              rw counted at zeros,
            ),
          ),
        )
        | inr more ↦
            let not_ended : ended recv calls ≡ false = rw held at more in
            let refused : failed total (calls + 1)
                ≡ failed (length (stream recv calls)) (calls + 1) =
              ap (λ n. failed n (calls + 1)) counted in
            elim (Option-cases (recv calls (max_http_header_line_size - 1))) [
              | inl error ↦ (
                failed total (calls + 1),
                rw (more, error, receive_data-none (replicate max_http_header_line_size 0) 0),
                (calls, earlier, inr (not_ended, refused, inl error)),
              )
              | inr (received, e) ↦
                  let fits : length received ≤ max_http_header_line_size - 1 =
                    rw e at (bounded calls (max_http_header_line_size - 1)) in
                  let (source, b, got, copied, len, front, behind) =
                    receive-append buffer received total max_http_header_line_size (omega arith)
                      (omega (arith, wide)) in
                  let (streamed, counted') = stream-suc calls total received counted e in
                  elim (Bool-cases (ltb max_http_header_line_size (total + length received))) [
                    | inl over ↦
                        let large =
                          ltb→lt max_http_header_line_size (total + length received) over in
                        (
                          failed total (calls + 1),
                          rw (more, e, got, over),
                          (
                            calls,
                            earlier,
                            inr (not_ended, refused, inr (inr (rw counted' at large))),
                          ),
                        )
                    | inr within ↦ elim (Bool-cases (ltb (length received) 1)) [
                      | inl closed ↦
                          let empty = ltb→lt (length received) 1 closed in
                          let same : length (stream recv (suc calls)) ≡ length (stream recv calls) =
                            omega (arith, counted, counted', empty) in
                          (
                            failed total (calls + 1),
                            rw (more, e, got, within, closed),
                            (calls, earlier, inr (not_ended, refused, inr (inl same))),
                          )
                      | inr some_bytes ↦
                          let at_most =
                            ltb→ge max_http_header_line_size (total + length received) within in
                          let at_least = ltb→ge (length received) 1 some_bytes in
                          let (r, run, accepts) =
                            headers_loop-Accepts fuel b (total + length received) (suc calls)
                              (earlier-suc calls earlier (
                                not_ended,
                                (received, e, omega (arith, at_least), omega (arith, counted')),
                              ))
                              counted' (front ∙ ap (◌++ received) held ∙ sym streamed) (len ∙ wide)
                              (zeros-suc buffer b total (length received) zeros behind
                                (omega arith))
                              (omega arith) (omega arith) in
                          (
                            r,
                            headers_loop-step recv fuel buffer b source received total calls more e
                                  got within some_bytes copied
                                ∙ run,
                            accepts,
                          )
                    ]
                  ]
            ]
      ]

  -- If `recv` never stores more than it was asked for, `_get_request_headers` returns, makes no
  -- access outside its buffers, and stops behind the first calls whose bytes hold the end of the
  -- header section, or at the first call before that that fails, gives nothing, or goes beyond 8192
  -- bytes in all; every call before gave some bytes and stayed within 8192. In the first case it
  -- returns `true`, the buffer holds all the bytes received and zeros behind them, and the total
  -- counts them; in the other case it returns `false` and the buffer was freed.
  pub get_request_headers-Accepts :
      Returns (get_request_headers recv (replicate receive_buffer_size 0) 0) (Accepts recv)
  unfolding get_request_headers
  get_request_headers-Accepts =
      headers_loop-Accepts (max_http_header_line_size + 1) (replicate receive_buffer_size 0) 0 0
        (λ j before. absurd (omega arith)) refl refl
        (length-replicate {A = ℕ} receive_buffer_size 0) refl (omega arith) (omega arith)
