-- ===== src/HostResolver/Port.antt =====
-- The text of the port, in the eight bytes that `get_local_addresses` allocates.
use native.Mathlib.Nat.{pow-suc, one-le-pow}
use orb_weaver.HostResolver.{is_error, get_local_addresses}
use orb_weaver.Memory.Text.{text, nonzero, text-nonzero, write-outside}
use orb_weaver.Memory.{Bytes}
use orb_weaver.Prelude.{
  ℕ, zero, suc, ◌/◌, ◌^◌, ◌≤◌, ◌<◌, ◌≡◌, refl, ap, ◌∙◌, Bool, true, false, not, some, List, [], ◌∷◌,
  ◌++◌, arith, Run, ok, fault, out_of_bounds, ℤ, if◌then◌else◌, ltb, ltb→lt, ltb→ge, Bool-cases,
  inl, inr, length, drop,
}
use orb_weaver.StringTools.Digits.{
  decimal, size, IsDigits, digits-IsDigits, length-digits, size-le, count_loop-size,
  size_t_to_string-decimal,
}
use orb_weaver.StringTools.{count_loop, digit_fuel, size_t_to_string}

size-ge : (fuel n k : ℕ) → 10 ^ k ≤ n → n < 10 ^ fuel → k < size fuel n
unfolding size
size-ge zero n k h b = absurd (omega (arith, one-le-pow k 10 (omega arith)))
size-ge (suc fuel) n zero h b = ground arith
size-ge (suc fuel) n (suc k) h b =
    let one = one-le-pow k 10 (omega arith) in
    let below : n / 10 < 10 ^ fuel = omega (arith, pow-suc 10 fuel) in
    let above : 10 ^ k ≤ n / 10 = omega (arith, pow-suc 10 k) in
    let more = size-ge fuel (n / 10) k above below in ground arith

IsDigits-nonzero : (xs : Bytes) → IsDigits xs → nonzero xs ≡ true
IsDigits-nonzero [] h = refl
IsDigits-nonzero (x ∷ xs) h = ground (arith, IsDigits-nonzero xs)

length-decimal : (n : ℕ) → length (decimal n) ≡ size digit_fuel n
length-decimal n = omega (arith, length-digits digit_fuel n [])

-- What the function returns when `getaddrinfo` gets `bytes`.
abbrev pub answer_of : {A : Type 0} → ℤ × List A → Run (Bool × List A)
answer_of (status, []) = ok (false, [])
answer_of (status, a ∷ rest) = ok (not (is_error status), a ∷ rest)

module _ {A : Type 0} (getaddrinfo : Bytes → ℤ × List A) (port_string : Bytes) (port : ℕ)
    (eight : length port_string ≡ 8) where
  port-small :
      port < 10 ^ 7
      → get_local_addresses getaddrinfo (some port_string) port
        ≡ answer_of (getaddrinfo (decimal port))
  unfolding get_local_addresses
  port-small small =
      let room : length (decimal port) < length port_string =
        omega (arith, length-decimal port, size-le digit_fuel port 7 small (omega arith)) in
      let read : text (decimal port ++ 0 ∷ drop (suc (length (decimal port))) port_string)
          ≡ decimal port =
        text-nonzero (decimal port) (drop (suc (length (decimal port))) port_string)
          (IsDigits-nonzero (decimal port) (digits-IsDigits digit_fuel port [] tt)) in
      rw (size_t_to_string-decimal port port_string (omega arith) room, read)
        (answers (getaddrinfo (decimal port)))
    where
      answers :
          (found : ℤ × List A)
          → (if is_error found.0
              then ok (false, found.1)
              else elim found.1 [ [] ↦ ok (false, []) | a ∷ rest ↦ ok (true, a ∷ rest) ])
            ≡ answer_of found
      answers (status, []) = ground arith
      answers (status, a ∷ rest) = ground arith

  port-large :
      10 ^ 7 ≤ port
      → port < 2 ^ 64
      → get_local_addresses getaddrinfo (some port_string) port ≡ fault out_of_bounds
  unfolding get_local_addresses size_t_to_string
  port-large big bound =
      let more = size-ge digit_fuel port 7 big (omega arith) in
      let counted : count_loop digit_fuel port 0 ≡ ok (size digit_fuel port) =
        count_loop-size digit_fuel port 0 (omega arith) (omega arith) ∙ ap ok (omega arith) in
      rw (counted, write-outside port_string (size digit_fuel port) 0 (omega arith))

  -- With the eight bytes that are allocated: for a port below 10^7, `getaddrinfo` gets the decimal
  -- digits of the port, and `get_local_addresses` returns its list, and `true` when its status is 0
  -- and the list is not empty; a port from 10^7 on is written outside of the eight bytes.
  pub get_local_addresses-port :
      port < 2 ^ 64
      → get_local_addresses getaddrinfo (some port_string) port ≡ (
          if ltb port (10 ^ 7) then answer_of (getaddrinfo (decimal port)) else fault out_of_bounds)
  get_local_addresses-port bound = elim (Bool-cases (ltb port (10 ^ 7))) [
    | inl small ↦ rw small (port-small (ltb→lt port (10 ^ 7) small))
    | inr large ↦ rw large (port-large (ltb→ge port (10 ^ 7) large) bound)
  ]
