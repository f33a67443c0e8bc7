-- ===== src/Configuration/Values.antt =====
-- The loops that read the value of a field.
use mathlib.Core.List.{append-nil, append_assoc}
use orb_weaver.Configuration.{value_loop, number_loop, is_digit}
use orb_weaver.Memory.{Bytes}
use orb_weaver.Prelude.{
  ℕ, zero, suc, ◌+◌, ◌-◌, ◌*◌, ◌%◌, ◌^◌, ◌≤◌, ◌≡◌, refl, sym, ap, true, some, [], ◌∷◌, ◌++◌, arith,
  ok, fault, out_of_bounds, length, take,
}
use orb_weaver.StringTools.Digits.{IsDigits, value_from}

-- The value ends at the newline, if it has no more bytes than the cache.
pub value_loop-IsDigits :
    (rounds : ℕ) (xs rest acc : Bytes)
    → IsDigits xs
    → length xs ≤ rounds
    → value_loop rounds (xs ++ b'\n' ∷ rest) acc ≡ ok (acc ++ xs)
unfolding value_loop
value_loop-IsDigits zero [] rest acc d h = ap ok (sym (append-nil acc))
value_loop-IsDigits zero (x ∷ xs) rest acc d h = absurd (omega arith)
value_loop-IsDigits (suc rounds) [] rest acc d h = ap ok (sym (append-nil acc))
value_loop-IsDigits (suc rounds) (x ∷ xs) rest acc d h =
    ground (arith, value_loop-IsDigits rounds xs rest (acc ++ x ∷ []), append_assoc acc (x ∷ []) xs)

-- A longer value fills the cache.
pub value_loop-take :
    (rounds : ℕ) (xs rest acc : Bytes)
    → IsDigits xs
    → rounds ≤ length xs
    → value_loop rounds (xs ++ b'\n' ∷ rest) acc ≡ ok (acc ++ take rounds xs)
unfolding value_loop
value_loop-take zero xs rest acc d h = ap ok (sym (append-nil acc))
value_loop-take (suc rounds) [] rest acc d h = absurd (omega arith)
value_loop-take (suc rounds) (x ∷ xs) rest acc d h = ground (
  arith,
  value_loop-take rounds xs rest (acc ++ x ∷ []),
  append_assoc acc (x ∷ []) (take rounds xs),
)

pub is_digit-digit : (c : ℕ) → b'0' ≤ c → c ≤ b'9' → is_digit c ≡ true
is_digit-digit c lo hi = ground arith

wrap : (v d : ℕ) → (v % 2 ^ 64 * 10 + d) % 2 ^ 64 ≡ (v * 10 + d) % 2 ^ 64
wrap v d = omega arith

-- The number of the digits, modulo 2^64.
pub number_loop-value_from :
    (xs rest : Bytes) (v : ℕ)
    → IsDigits xs
    → number_loop (xs ++ 0 ∷ rest) (v % 2 ^ 64) ≡ ok (some (value_from v xs % 2 ^ 64))
unfolding number_loop value_from
number_loop-value_from [] rest v d = refl
number_loop-value_from (x ∷ xs) rest v (lo, hi, d) =
    rw (wrap v (x - b'0')) (ground (arith, number_loop-value_from xs rest (v * 10 + (x - b'0'))))

-- Digits with no 0 behind them are read past their end.
pub number_loop_out_of_bounds :
    (xs : Bytes) (v : ℕ) → IsDigits xs → number_loop xs v ≡ fault out_of_bounds
unfolding number_loop
number_loop_out_of_bounds [] v d = refl
number_loop_out_of_bounds (x ∷ xs) v (lo, hi, d) =
    ground (arith, number_loop_out_of_bounds xs ((v * 10 + (x - b'0')) % 2 ^ 64))

pub take-IsDigits : (n : ℕ) (xs : Bytes) → IsDigits xs → IsDigits (take n xs)
take-IsDigits zero xs d = tt
take-IsDigits (suc n) [] d = tt
take-IsDigits (suc n) (x ∷ xs) (lo, hi, d) = (lo, hi, take-IsDigits n xs d)
