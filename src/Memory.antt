-- ===== src/Memory.antt =====
-- Arrays and C strings: what `p[i]`, `memcpy` and `strcmp` do on a block of memory, as far as the
-- code can reach it. A block is the list of its cells, and a read or write outside it is a fault.
pub mod Text
use Prim.Native.Char.{code}
use Prim.Native.String.{String}
use orb_weaver.Prelude.{
  ℕ, ◌+◌, ◌%◌, ◌++◌, zero, suc, Bool, true, false, List, [], ◌∷◌, Run, ok, fault, out_of_bounds,
  ◌>>=◌, ◌==◌, if◌then◌else◌,
}

-- A `char` array; a `char` is its bit pattern, below 256.
abbrev pub Bytes : Type 0
Bytes = List ℕ

-- The order of signed `char`s: -128, the pattern 128, comes first.
abbrev pub char_rank : ℕ → ℕ
char_rank c = (c + 128) % 256

-- The bytes of an ASCII literal, without and with the closing 0.
abbrev pub codes : String → Bytes
codes String.[] = []
codes (String.◌∷◌ c s) = code c ∷ codes s

abbrev pub c_string : String → Bytes
c_string s = codes s ++ 0 ∷ []

module _ {ℓ} {A : Type ℓ} where
  -- `p[i]`
  unfoldable pub read : List A → ℕ → Run A
  read [] i = fault out_of_bounds
  read (x ∷ xs) zero = ok x
  read (x ∷ xs) (suc i) = read xs i

  -- `p[i] = v`
  unfoldable pub write : List A → ℕ → A → Run (List A)
  write [] i v = fault out_of_bounds
  write (x ∷ xs) zero v = ok (v ∷ xs)
  write (x ∷ xs) (suc i) v = do ys ← write xs i v; ok (x ∷ ys)

  -- What `memcpy(…, p, n)` reads.
  unfoldable pub copy : List A → ℕ → Run (List A)
  copy xs zero = ok []
  copy [] (suc n) = fault out_of_bounds
  copy (x ∷ xs) (suc n) = do ys ← copy xs n; ok (x ∷ ys)

-- `strcmp(a, b) == 0`
unfoldable pub strcmp_equal : Bytes → Bytes → Run Bool
strcmp_equal [] b = fault out_of_bounds
strcmp_equal (x ∷ a) [] = fault out_of_bounds
strcmp_equal (x ∷ a) (y ∷ b) =
    let rest = strcmp_equal a b in if x == y then (if x == 0 then ok true else rest) else ok false

-- `memcpy` of all of `source` to the front of `destination`.
unfoldable pub paste : Bytes → Bytes → Run Bytes
paste [] destination = ok destination
paste (c ∷ source) [] = fault out_of_bounds
paste (c ∷ source) (_ ∷ destination) = do rest ← paste source destination; ok (c ∷ rest)

-- `memcpy(destination + i, source, …)`
unfoldable pub write_at : Bytes → ℕ → Bytes → Run Bytes
unfolding paste
write_at destination zero source = paste source destination
write_at [] (suc i) source = fault out_of_bounds
write_at (c ∷ destination) (suc i) source = do rest ← write_at destination i source; ok (c ∷ rest)
