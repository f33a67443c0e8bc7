-- ===== src/ConnectionHandler/Send.antt =====
-- `send_data` ends.
use orb_weaver.ConnectionHandler.{Sent, ssize_to_size, send_loop, send_data}
use orb_weaver.ErrorHandler.{validate_syscall}
use orb_weaver.Prelude.{
  ℕ, zero, suc, ◌+◌, ◌-◌, ◌^◌, ◌%◌, ◌≤◌, ◌<◌, ◌≡◌, ◌≢◌, true, false, List, [], ◌∷◌, ◌++◌, arith,
  Returns, ltb, ltb→lt, ◌==◌, Bool-cases, inl, inr, ℤ, pos, negsuc, to_int, ◌⊎◌, refl, length,
  length-append,
}

module _ (send : ℕ → Sent → ℤ) (bytes_sent : ℕ → ℕ) (data_length : ℕ)
    (small : (i : ℕ) (call : Sent)
      → (send i call ≡ negsuc 0) ⊎ ((n : ℕ) × (send i call ≡ pos n) × (n < 2 ^ 31)))
    (short : data_length < 2 ^ 63) where
  abbrev call_of : ℕ → Sent
  call_of round = (bytes_sent round, (data_length + 2 ^ 64 - bytes_sent round) % 2 ^ 64)

  abbrev sent_by : ℕ → ℕ
  sent_by round = ssize_to_size (send round (call_of round))

  -- A call that fails gives -1 back as an `int`.
  failed_call :
      (round : ℕ)
      → send round (call_of round) ≡ negsuc 0
      → validate_syscall (to_int (sent_by round)) true ≡ false
  unfolding validate_syscall to_int
  failed_call round e = rw e refl

  small_call :
      (round : ℕ) → validate_syscall (to_int (sent_by round)) true ≡ true → sent_by round < 2 ^ 31
  small_call round fine = elim (small round (call_of round)) [
    | inl e ↦ let stopped = failed_call round e in absurd (ground arith)
    | inr (n, e, lt) ↦ rw e lt
  ]

  send_loop-ends :
      (fuel round total : ℕ) (calls : List Sent)
      → data_length - total < fuel
      → Returns
          (send_loop send bytes_sent fuel round data_length total calls)
          (λ r. length r.1 < length calls + fuel)
  unfolding send_loop
  send_loop-ends zero round total calls enough = absurd (omega arith)
  send_loop-ends (suc fuel) round total calls enough = elim (Bool-cases (ltb total data_length)) [
    | inr done ↦ ((true, calls), rw done, omega arith)
    | inl more ↦
        let lt = ltb→lt total data_length more in
        let one : length (calls ++ call_of round ∷ []) ≡ length calls + 1 =
          omega (arith, length-append calls (call_of round ∷ [])) in
        elim (Bool-cases (validate_syscall (to_int (sent_by round)) true)) [
          | inr failed ↦
              ((false, calls ++ call_of round ∷ []), rw (more, failed), omega (arith, one))
          | inl fine ↦ elim (Bool-cases (sent_by round == 0)) [
            | inl nothing ↦
                ((false, calls ++ call_of round ∷ []), rw (more, fine, nothing), omega (arith, one))
            | inr some_bytes ↦
                let positive : sent_by round ≢ 0 = ground arith in
                let (r, run, few) =
                  send_loop-ends fuel (round + 1) ((total + sent_by round) % 2 ^ 64)
                    (calls ++ call_of round ∷ []) (omega (arith, small_call round fine)) in
                (r, rw (more, fine, some_bytes) run, omega (arith, one, few))
          ]
        ]
  ]

  -- If every call of `send` returns -1, or a number of bytes less than 2^31, and fewer than 2^63 bytes
  -- are to be sent, `send_data` returns, whatever `bytes_sent` held before, and has made at most one
  -- call for each byte.
  pub send_data-ends :
      Returns (send_data send bytes_sent data_length) (λ r. length r.1 ≤ data_length)
  unfolding send_data
  send_data-ends =
      let (r, run, few) = send_loop-ends (data_length + 1) 0 0 [] (omega arith) in
      (r, run, omega (arith, few))
