-- ===== src/HttpHandler/HeaderLine/Refuse.antt =====
-- Header lines that the parser does not survive, or refuses.
use mathlib.Core.List.{append-nil}
use orb_weaver.HttpHandler.HeaderLine.Fields.{key, is_plain, within, header_loop-part}
use orb_weaver.HttpHandler.HeaderLine.{
  end_key, cache_byte, header_loop, finish_header, validate_http_header,
}
use orb_weaver.HttpTypes.{HttpRequestHeader}
use orb_weaver.Memory.{Bytes, codes, write, strcmp_equal}
use orb_weaver.Prelude.{
  ℕ, zero, suc, ◌+◌, ◌≤◌, ◌≡◌, ◌≢◌, refl, Bool, true, false, some, [], ◌∷◌, ◌++◌, ok, fault,
  out_of_bounds, ltb, ==_ne, length, drop, length-replicate, replicate, arith, ge→ltb,
}

write-length : (xs : Bytes) (c : ℕ) → write xs (length xs) c ≡ fault out_of_bounds
unfolding write
write-length [] c = refl
write-length (x ∷ xs) c = rw (write-length xs c)

drop-all : (k : ℕ) → drop k (replicate {A = ℕ} k 0) ≡ []
drop-all zero = refl
drop-all (suc k) = drop-all k

header_loop-full :
    (rest xs other : Bytes)
    → header_loop (0 ∷ rest) (length xs) (within key (length xs) (length xs) xs other 0 false)
      ≡ fault out_of_bounds
unfolding header_loop cache_byte
header_loop-full [] xs other =
    let more : ltb (length xs) (length xs) ≡ false = ge→ltb (length xs) (length xs) (omega arith) in
    rw (more, write-length xs 0)
header_loop-full (d ∷ rest) xs other =
    let more : ltb (length xs) (length xs) ≡ false = ge→ltb (length xs) (length xs) (omega arith) in
    rw (more, write-length xs 0)

-- A header line without a colon, a carriage return or a zero makes the parser write its closing 0
-- behind the end of `key_cache`, whatever `strndup` would return.
pub validate_http_header-without_colon :
    (key_memory value_memory : Bool) (xs rest : Bytes) (host_found : Bool)
    (result : HttpRequestHeader)
    → is_plain key xs ≡ true
    → validate_http_header key_memory value_memory
        (some (xs ++ 0 ∷ rest))
        (length xs)
        host_found
        (some result)
      ≡ fault out_of_bounds
unfolding validate_http_header
validate_http_header-without_colon key_memory value_memory xs rest host_found result p =
    let z : 0 + length xs ≡ length xs = omega arith in
    let all =
      header_loop-part key xs (0 ∷ rest) (replicate (length xs) 0) 0 (length xs)
        (replicate (length xs) 0) 0 false p (omega (arith, length-replicate {A = ℕ} (length xs) 0))
        (omega arith) in
    rw (
      rw (z, drop-all (length xs), append-nil) at all,
      header_loop-full rest xs (replicate (length xs) 0),
    )

-- A `Host` header whose colon has no space behind it is refused, with `*host_found` set, and the
-- header left as it was.
pub validate_http_header-malformed_host :
    (key_memory value_memory : Bool) (d : ℕ) (xs rest : Bytes) (host_found : Bool)
    (result : HttpRequestHeader)
    → d ≢ b' '
    → validate_http_header key_memory value_memory
        (some (codes "Host:" ++ d ∷ (xs ++ 0 ∷ rest)))
        (length (codes "Host:" ++ d ∷ xs))
        host_found
        (some result)
      ≡ ok (record { valid = false; host_found = true; header = some result })
unfolding validate_http_header header_loop cache_byte end_key finish_header strcmp_equal write
validate_http_header-malformed_host key_memory value_memory d xs rest host_found result h =
    let more : (j : ℕ) → j ≤ 5 → ltb (length (codes "Host:" ++ d ∷ xs)) j ≡ false =
      λ j le. ge→ltb (length (codes "Host:" ++ d ∷ xs)) j (omega arith) in
    rw (
      more 0 (omega arith),
      more 1 (omega arith),
      more 2 (omega arith),
      more 3 (omega arith),
      more 4 (omega arith),
      ==_ne d b' ' h,
    )
