-- ===== src/StringTools.antt =====
-- utilities/string-tools/string_tools.c. A `char *` is the block from the pointer on, or `none` for
-- `NULL`, and an out parameter is the value that it points to.
pub mod Digits
pub mod Broken
use orb_weaver.Memory.{Bytes, write, char_rank}
use orb_weaver.Prelude.{
  ℕ, zero, suc, ◌+◌, ◌-◌, ◌*◌, ◌/◌, ◌%◌, ◌^◌, Bool, true, false, ◌||◌, Option, none, some, [], ◌∷◌,
  Run, ok, fault, out_of_bounds, out_of_fuel, ◌>>=◌, ltb, ◌==◌, if◌then◌else◌,
}

-- The loop of `string_length` moves both pointers. The second one is an offset from `result`.
unfoldable pub length_loop : Bytes → ℕ → Run ℕ
length_loop [] offset = fault out_of_bounds
length_loop (c ∷ target) offset = if c == 0 then ok offset else length_loop target (offset + 1)

-- The result, and what `*result` holds for the caller.
unfoldable pub string_length : Option Bytes → Option ℕ → Run (Bool × Option ℕ)
unfolding length_loop
string_length target none = ok (false, none)
string_length none (some result) = ok (true, some result)
string_length (some target) (some result) = do offset ← length_loop target 0; ok (true, some result)

unfoldable pub size_loop : Bytes → ℕ → Run (Bool × ℕ)
size_loop [] result = fault out_of_bounds
size_loop (c ∷ []) result =
    if ltb (char_rank b'0') (char_rank c) || ltb (char_rank c) (char_rank b'9')
    then ok (false, result)
    else fault out_of_bounds
size_loop (c ∷ d ∷ number) result =
    let rest =
      size_loop (d ∷ number) ((result * 10 + (char_rank d + (2 ^ 64 - 128 - 48))) % 2 ^ 64) in
    if ltb (char_rank b'0') (char_rank c) || ltb (char_rank c) (char_rank b'9')
    then ok (false, result)
    else rest

-- The result, and what `*result` holds for the caller.
unfoldable pub string_to_size_t : Option Bytes → ℕ → Run (Bool × ℕ)
unfolding size_loop
string_to_size_t none result = ok (true, result)
string_to_size_t (some number) result = size_loop number result

-- The first loop of `size_t_to_string`: how many digits the number has.
unfoldable pub count_loop : ℕ → ℕ → ℕ → Run ℕ
count_loop zero number counter = fault out_of_fuel
count_loop (suc fuel) number counter =
    let rest = count_loop fuel (number / 10) (counter + 1) in
    if number / 10 == 0 then ok (counter + 1) else rest

-- The second loop, from the last digit to the first; `tail` is an offset from `result`.
unfoldable pub digit_loop : ℕ → ℕ → ℕ → Bytes → Run Bytes
digit_loop zero number tail result = fault out_of_fuel
digit_loop (suc fuel) number zero result = ok result
digit_loop (suc fuel) number (suc tail) result = do
  result' ← write result tail (number % 10 + b'0')
  let rest = digit_loop fuel (number / 10) tail result'
  if number / 10 == 0 then ok result' else rest

-- A 64-bit number has at most 20 digits.
abbrev pub digit_fuel : ℕ
digit_fuel = 20

-- The buffer that is left; the function returns `true`.
unfoldable pub size_t_to_string : ℕ → Bytes → Run (Bool × Bytes)
size_t_to_string number result = do
  counter ← count_loop digit_fuel number 0
  closed ← write result counter 0
  written ← digit_loop digit_fuel number counter closed
  ok (true, written)
