-- ===== src/StringTools/Broken.antt =====
-- What `string_length` and `string_to_size_t` do with every string.
use orb_weaver.Memory.Text.{terminated}
use orb_weaver.Memory.{Bytes}
use orb_weaver.Prelude.{
  ℕ, ◌+◌, ◌≡◌, true, false, some, [], ◌∷◌, arith, ok, inl, inr, Bool-cases, Returns, ◌==◌,
}
use orb_weaver.StringTools.{length_loop, string_length, string_to_size_t}

length_loop-ok :
    (target : Bytes) (offset : ℕ)
    → terminated target ≡ true
    → Returns (length_loop target offset) (λ _. Unit {0})
unfolding length_loop terminated
length_loop-ok [] offset h = cc
length_loop-ok (c ∷ target) offset h = elim (Bool-cases (c == 0)) [
  | inl end ↦ (offset, rw end, tt)
  | inr more ↦ rw more (length_loop-ok target (offset + 1) (rw more at h))
]

-- For every C string, of whatever length, `string_length` says `true` and leaves the caller's
-- `*result` as it was.
pub string_length_unchanged :
    (target : Bytes) (result : ℕ)
    → terminated target ≡ true
    → string_length (some target) (some result) ≡ ok (true, some result)
unfolding string_length
string_length_unchanged target result h = rw (length_loop-ok target 0 h).1

-- `string_to_size_t` refuses every string, a decimal number or not, and leaves `*result` as it was.
pub string_to_size_t_refuses :
    (c : ℕ) (number : Bytes) (result : ℕ)
    → string_to_size_t (some (c ∷ number)) result ≡ ok (false, result)
unfolding string_to_size_t
string_to_size_t_refuses c [] result = ground arith
string_to_size_t_refuses c (d ∷ number) result = ground arith
