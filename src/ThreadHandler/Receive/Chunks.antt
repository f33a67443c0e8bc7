-- ===== src/ThreadHandler/Receive/Chunks.antt =====
-- A header section that comes in any number of chunks.
use orb_weaver.HttpTypes.{max_http_header_line_size}
use orb_weaver.Memory.{Bytes}
use orb_weaver.Prelude.{
  ℕ, zero, suc, ◌+◌, ◌-◌, ◌≤◌, ◌<◌, ◌≡◌, inl, inr, refl, ap, ◌∙◌, true, false, [], ◌∷◌, ◌++◌, arith,
  ok, ltb, ltb→lt, ltb→ge, Bool-cases, length, length-append, take, drop, replicate,
}
use orb_weaver.ThreadHandler.Receive.Headers.{
  bytes_of, stream, Bounded, ended, Refused, get_request_headers-Accepts,
}
use orb_weaver.ThreadHandler.Receive.{
  Recv, receive_buffer_size, end_of_buffer, memmem, Received, succeeded, get_request_headers,
}

-- The first `k` calls give `message`: each of them something, and none but the last one the end of
-- the header section.
abbrev pub Delivers : Recv → ℕ → Bytes → Type 0
Delivers recv k message =
    (stream recv k ≡ message)
    × ((j : ℕ)
        → j < k
        → (ended recv j ≡ false) × (length (stream recv j) < length (stream recv (suc j))))

pub memmem-append :
    (xs ys little : Bytes) → memmem ys little ≡ true → memmem (xs ++ ys) little ≡ true
unfolding memmem
memmem-append [] ys little h = h
memmem-append (c ∷ xs) ys little h = ground (arith, memmem-append xs ys little)

pub take-drop : (n : ℕ) (xs : Bytes) → take n xs ++ drop n xs ≡ xs
take-drop zero xs = refl
take-drop (suc n) [] = refl
take-drop (suc n) (x ∷ xs) = ap (◌∷◌ x) (take-drop n xs)

module _ (recv : Recv) where
  length-stream-suc : (n : ℕ) → length (stream recv n) ≤ length (stream recv (suc n))
  length-stream-suc n =
      omega
        (arith, length-append (stream recv n) (bytes_of (recv n (max_http_header_line_size - 1))))

  length-stream-le : (i k : ℕ) → i ≤ k → length (stream recv i) ≤ length (stream recv k)
  length-stream-le i zero h = (let z : i ≡ 0 = omega arith in rw z (omega arith))
  length-stream-le i (suc k) h = elim (Bool-cases (ltb i (suc k))) [
    | inl below ↦
        let lt = ltb→lt i (suc k) below in
        omega (arith, length-stream-le i k (omega arith), length-stream-suc k)
    | inr at ↦
        let ge = ltb→ge i (suc k) at in let same : i ≡ suc k = omega arith in rw same (omega arith)
  ]

  not-Refused :
      (k j : ℕ) (message : Bytes) (out : Received)
      → Delivers recv k message
      → length message ≤ max_http_header_line_size
      → j < k
      → ¬ (Refused recv j out)
  not-Refused k j message out (all, each) small lt (_, _, inl error) =
      let grows = (each j lt).1 in
      let same : length (stream recv (suc j)) ≡ length (stream recv j) + 0 =
        length-append (stream recv j) (bytes_of (recv j (max_http_header_line_size - 1)))
        ∙ ap (λ o. length (stream recv j) + length (bytes_of o)) error in
      omega (arith, grows, same)
  not-Refused k j message out (all, each) small lt (_, _, inr (inl same)) =
      omega (arith, (each j lt).1, same)
  not-Refused k j message out (all, each) small lt (_, _, inr (inr over)) =
      omega (arith, over, length-stream-le (suc j) k (omega arith), ap length all)

  -- If `recv` never stores more than it was asked for, and its first `k` calls deliver a message of
  -- at most 8192 bytes that holds the end of the header section, `_get_request_headers` returns
  -- `true` behind these calls, with the message at the front of the buffer, zeros behind it, and its
  -- length as the total.
  pub get_request_headers-Delivers :
      (k : ℕ) (message : Bytes)
      → Bounded recv
      → Delivers recv k message
      → memmem message end_of_buffer ≡ true
      → length message ≤ max_http_header_line_size
      → (b : Bytes) × (get_request_headers recv (replicate receive_buffer_size 0) 0
          ≡ ok (succeeded b (length message) k))
        × (take (length message) b ≡ message)
        × (drop (length message) b ≡ replicate (receive_buffer_size - length message) 0)
  get_request_headers-Delivers k message bounded delivers end small =
      let (out, run, accepts) = get_request_headers-Accepts recv bounded in
      let (j, earlier, which) = accepts in
      let end' : ended recv k ≡ true = rw (delivers.0) end in
      elim (Bool-cases (ltb k j)) [
        | inl below ↦ let late = (earlier k (ltb→lt k j below)).0 in absurd (ground arith)
        | inr above ↦ elim (Bool-cases (ltb j k)) [
          | inl below ↦ elim which [
            | inl found ↦
                let early = (delivers.1 j (ltb→lt j k below)).0 in
                let is = found.0 in absurd (ground arith)
            | inr refused ↦
                absurd (not-Refused k j message out delivers small (ltb→lt j k below) refused)
          ]
          | inr not_below ↦
              let le = ltb→ge k j above in
              let ge = ltb→ge j k not_below in
              let same : j ≡ k = omega arith in
              elim which [
                | inl (is, b, result, _, _, front, zeros) ↦ (
                  b,
                  run ∙ ap ok result ∙ rw (same, delivers.0),
                  rw (same, delivers.0) at front,
                  rw (same, delivers.0) at zeros,
                )
                | inr (unfinished, _, _) ↦
                    (let early : ended recv k ≡ false = rw same at unfinished in
                      absurd (ground arith))
              ]
        ]
      ]
