-- ===== src/Configuration/Line.antt =====
-- What one `name = value` line does.
use mathlib.Core.List.{append-nil}
use orb_weaver.Configuration.Fields.{Field, max_connections, name, put, row, store_at-put}
use orb_weaver.Configuration.Values.{
  value_loop-IsDigits, value_loop-take, is_digit-digit, number_loop-value_from,
  number_loop_out_of_bounds, take-IsDigits,
}
use orb_weaver.Configuration.{
  Configuration, parse_line, parse_value, cache, max_value_length, validate_field_name, name_loop,
}
use orb_weaver.Memory.{Bytes, codes}
use orb_weaver.Prelude.{
  ℕ, zero, suc, ◌-◌, ◌%◌, ◌^◌, ◌≤◌, ◌<◌, ◌≡◌, ◌≢◌, refl, ap, ◌∙◌, true, [], ◌∷◌, ◌++◌, arith, ok,
  fault, out_of_bounds, ==_ne, length, length-take_of_le, take, replicate,
}
use orb_weaver.StringTools.{digit_fuel}
use orb_weaver.StringTools.Digits.{
  IsDigits, value_from, decimal, size-le, length-digits, digits-IsDigits, value_from-decimal,
  size_pos,
}

-- `name = xs`, with what the buffer holds behind the newline.
abbrev pub assignment : Field → Bytes → Bytes → Bytes
assignment f xs rest = codes (name f) ++ b' ' ∷ b'=' ∷ b' ' ∷ (xs ++ b'\n' ∷ rest)

parse_line-parse_value :
    (f : Field) (xs rest : Bytes) (c : Configuration)
    → parse_line (assignment f xs rest) c
      ≡ parse_value (row f) (b' ' ∷ b'=' ∷ b' ' ∷ (xs ++ b'\n' ∷ rest)) c
unfolding parse_line name_loop validate_field_name
parse_line-parse_value max_connections xs rest c = refl
parse_line-parse_value _ xs rest c = refl

replicate_pos : (k : ℕ) → 0 < k → replicate {A = ℕ} k 0 ≡ 0 ∷ replicate (k - 1) 0
replicate_pos zero h = absurd (omega arith)
replicate_pos (suc k) h = ap (λ n. 0 ∷ replicate {A = ℕ} n 0) (omega arith)

short_cache :
    (xs : Bytes)
    → length xs < max_value_length
    → cache max_value_length xs ≡ xs ++ 0 ∷ replicate (max_value_length - length xs - 1) 0
short_cache xs h = ap (◌++◌ xs) (replicate_pos (max_value_length - length xs) (omega arith))

full_cache :
    (xs : Bytes)
    → max_value_length ≤ length xs
    → cache max_value_length (take max_value_length xs) ≡ take max_value_length xs
full_cache xs h =
    let full : max_value_length - length (take max_value_length xs) ≡ 0 =
      omega (arith, length-take_of_le max_value_length xs h) in
    rw (full, append-nil)

-- A value of fewer than twenty digits.
parse_value-put :
    (f : Field) (x : ℕ) (xs rest : Bytes) (c : Configuration)
    → IsDigits (x ∷ xs)
    → length (x ∷ xs) < max_value_length
    → value_from 0 (x ∷ xs) % 2 ^ 64 ≢ 0
    → parse_value (row f) (b' ' ∷ b'=' ∷ b' ' ∷ (x ∷ (xs ++ b'\n' ∷ rest))) c
      ≡ ok (true, put f (value_from 0 (x ∷ xs) % 2 ^ 64) c)
unfolding parse_value
parse_value-put f x xs rest c d short ne =
    let (lo, hi, _) = d in
    rw (
      is_digit-digit x lo hi,
      value_loop-IsDigits max_value_length (x ∷ xs) rest [] d (omega arith),
      short_cache (x ∷ xs) short,
      number_loop-value_from (x ∷ xs) (replicate (max_value_length - length (x ∷ xs) - 1) 0) 0 d,
      ==_ne (value_from 0 (x ∷ xs) % 2 ^ 64) 0 ne,
      store_at-put f (value_from 0 (x ∷ xs) % 2 ^ 64) c,
    )

parse_value_long :
    (f : Field) (x : ℕ) (xs rest : Bytes) (c : Configuration)
    → IsDigits (x ∷ xs)
    → max_value_length ≤ length (x ∷ xs)
    → parse_value (row f) (b' ' ∷ b'=' ∷ b' ' ∷ (x ∷ (xs ++ b'\n' ∷ rest))) c ≡ fault out_of_bounds
unfolding parse_value
parse_value_long f x xs rest c d long =
    let (lo, hi, _) = d in
    rw (
      is_digit-digit x lo hi,
      value_loop-take max_value_length (x ∷ xs) rest [] d long,
      full_cache (x ∷ xs) long,
      number_loop_out_of_bounds (take max_value_length (x ∷ xs)) 0
          (take-IsDigits max_value_length (x ∷ xs) d),
    )

parse_line_short :
    (f : Field) (xs rest : Bytes) (c : Configuration)
    → IsDigits xs
    → 0 < length xs
    → length xs < max_value_length
    → value_from 0 xs % 2 ^ 64 ≢ 0
    → parse_line (assignment f xs rest) c ≡ ok (true, put f (value_from 0 xs % 2 ^ 64) c)
parse_line_short f [] rest c d some_digit short ne = absurd (omega arith)
parse_line_short f (x ∷ xs) rest c d some_digit short ne =
    parse_line-parse_value f (x ∷ xs) rest c ∙ parse_value-put f x xs rest c d short ne

-- A line that assigns the decimal text of a number below 10^19, other than 0, sets just that field
-- to the number, whatever the buffer holds behind the line.
pub parse_line-put :
    (f : Field) (v : ℕ) (rest : Bytes) (c : Configuration)
    → 0 < v
    → v < 10 ^ 19
    → parse_line (assignment f (decimal v) rest) c ≡ ok (true, put f v c)
parse_line-put f v rest c pos small =
    let same : value_from 0 (decimal v) % 2 ^ 64 ≡ v =
      omega (arith, value_from-decimal v (omega arith)) in
    parse_line_short f (decimal v) rest c (digits-IsDigits digit_fuel v [] tt)
      (omega (arith, length-digits digit_fuel v [], size_pos 19 v))
      (omega (arith, length-digits digit_fuel v [], size-le digit_fuel v 19 small (omega arith)))
      (omega (arith, same))
    ∙ ap (λ n. ok (true, put f n c)) same

-- A line that assigns twenty digits or more makes the reader run past the end of its value cache,
-- whatever field it names.
pub parse_line_long :
    (f : Field) (xs rest : Bytes) (c : Configuration)
    → IsDigits xs
    → max_value_length ≤ length xs
    → parse_line (assignment f xs rest) c ≡ fault out_of_bounds
parse_line_long f [] rest c d long = absurd (omega arith)
parse_line_long f (x ∷ xs) rest c d long =
    parse_line-parse_value f (x ∷ xs) rest c ∙ parse_value_long f x xs rest c d long
