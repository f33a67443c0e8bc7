-- ===== src/Tests/Strings.antt =====
-- Numbers and strings.
use orb_weaver.Memory.{codes, write}
use orb_weaver.Prelude.{◌≡◌, refl, true, ◌∷◌, ◌++◌, arith, ok, replicate}
use orb_weaver.StringTools.Digits.{digits, size_t_to_string-decimal}
use orb_weaver.StringTools.{
  length_loop, string_length, size_loop, string_to_size_t, count_loop, digit_loop, size_t_to_string,
}

program : Unit {0}
unfolding write length_loop string_length size_loop string_to_size_t count_loop digit_loop
    size_t_to_string digits
program = tt

port_text : size_t_to_string 8888 (replicate 8 120) ≡ ok (true, codes "8888" ++ 0 ∷ replicate 3 120)
unfolding program
port_text = refl

size_t_to_string-decimal_example :
    size_t_to_string 8888 (replicate 8 120) ≡ ok (true, codes "8888" ++ 0 ∷ replicate 3 120)
unfolding program
size_t_to_string-decimal_example =
    size_t_to_string-decimal 8888 (replicate 8 120) (omega arith) (omega arith)
