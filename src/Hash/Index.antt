-- ===== src/Hash/Index.antt =====
-- The range of `_generate_hash_index`, and the polynomial that it computes.
use orb_weaver.Hash.{keygen, generate_hash_index}
use orb_weaver.Memory.{Bytes}
use orb_weaver.Prelude.{
  ℕ, zero, suc, ◌%◌, ◌≤◌, ◌<◌, ◌≡◌, refl, [], ◌∷◌, some, arith, ok, Returns, length, ◌==◌,
  if◌then◌else◌,
}

keygen-ok :
    (n : ℕ) (key : Bytes) (value : ℕ)
    → n ≤ length key
    → Returns (keygen n key value) (λ _. Unit {0})
unfolding keygen
keygen-ok zero key value h = (value, refl, tt)
keygen-ok (suc n) [] value h = absurd (omega arith)
keygen-ok (suc n) (c ∷ key) value h = keygen-ok n key _ (omega arith)

-- For a key of at least one byte and a table of at least two slots the hash is an index of the
-- table, and never 0.
pub generate_hash_index-bounds :
    (key : Bytes) (key_size table_size : ℕ)
    → 0 < key_size
    → key_size ≤ length key
    → 2 ≤ table_size
    → (h : ℕ) × (generate_hash_index (some key) key_size table_size ≡ ok (some h))
      × (0 < h)
      × (h < table_size)
unfolding generate_hash_index
generate_hash_index-bounds key key_size table_size pos fits two =
    let (value, run, _) = keygen-ok key_size key 0 fits in
    let result = value % table_size in
    (if result == 0 then 1 else result, ground (arith, run), ground arith, ground arith)
