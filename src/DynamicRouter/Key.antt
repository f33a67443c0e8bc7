-- ===== src/DynamicRouter/Key.antt =====
-- The key of a route, in the array that `bind_route` declares for it.
use orb_weaver.DynamicRouter.{key_loop, get_key}
use orb_weaver.Memory.Text.{nonzero, write-set, write-outside}
use orb_weaver.Memory.{Bytes}
use orb_weaver.Prelude.{
  ℕ, suc, ◌+◌, ◌%◌, ◌≤◌, ◌≡◌, refl, ◌∙◌, true, false, [], ◌∷◌, ◌++◌, arith, ok, fault,
  out_of_bounds, leb, ◌==◌, length, set, length-set,
}

key_loop-length :
    (path rest : Bytes) (i : ℕ) (key : Bytes)
    → nonzero path ≡ true
    → i + length path ≤ length key
    → (key' : Bytes) × (key_loop (path ++ 0 ∷ rest) i key ≡ ok (i + length path, key'))
      × (length key' ≡ length key)
unfolding key_loop
key_loop-length [] rest i key plain room =
    (let same : i + 0 ≡ i = omega arith in (key, rw same refl, refl))
key_loop-length (c ∷ path) rest i key plain room =
    let (key', run, len) =
      key_loop-length path rest (i + 1) (set key i c) (ground arith)
        (omega (arith, length-set key i c)) in
    let is_byte : (c == 0) ≡ false = ground arith in
    let one : i + suc (length path) ≡ i + 1 + length path = omega arith in
    (key', rw (is_byte, write-set key i c (omega arith), one) run, len ∙ length-set key i c)

-- For a path of `path_size` bytes that are not 0, in the array of `path_size + 1` bytes of
-- `bind_route`, `_get_key` writes the method behind the array, whatever the method is.
pub get_key-out_of_bounds :
    (path rest : Bytes) (method : ℕ) (key : Bytes)
    → nonzero path ≡ true
    → length key ≡ length path + 1
    → get_key (path ++ 0 ∷ rest) (length path) method key (length path + 1) ≡ fault out_of_bounds
unfolding get_key
get_key-out_of_bounds path rest method key plain size =
    let (key', run, len) = key_loop-length path rest 0 key plain (omega arith) in
    let larger : leb (length path + 1) (length path) ≡ false = ground arith in
    rw (
      larger,
      run,
      write-outside key' (0 + length path + 1) ((method + b'0') % 256) (omega (arith, len)),
    )
