-- ===== src/HttpHandler/HeaderLine/Fields.antt =====
-- How the loop of `_validate_http_header` takes in a key and a value.
use mathlib.Core.List.{append_assoc}
use orb_weaver.HttpHandler.HeaderLine.{
  HeaderScan, is_key, is_value, in_key, cache_byte, next_byte, header_loop,
}
use orb_weaver.Memory.Text.{write-append}
use orb_weaver.Memory.{Bytes}
use orb_weaver.Prelude.{
  ℕ, suc, ◌+◌, ◌≤◌, ◌<◌, ◌≡◌, refl, ◌∙◌, Bool, true, false, ◌||◌, ◌&&◌, not, [], ◌∷◌, ◌++◌, ok, ltb,
  ◌==◌, length, drop, arith, length-append,
}

pub data Part : Type 0 where
  key value : Part

-- A byte that stays inside the part.
abbrev pub plain : Part → ℕ → Bool
plain key c = not (c == b':' || c == b'\r' || c == 0)
plain value c = not (c == b'\r' || c == 0)

abbrev pub is_plain : Part → Bytes → Bool
is_plain part [] = true
is_plain part (c ∷ cs) = plain part c && is_plain part cs

-- The loop after `i` bytes, with `k` bytes in the cache of the part; the other cache has `m`.
abbrev pub within : Part → (k i : ℕ) → Bytes → Bytes → ℕ → Bool → HeaderScan
within key k i cache other m host = record {
  flag = is_key;
  key_cache = cache;
  key_cache_size = k;
  value_cache = other;
  value_cache_size = m;
  total_parsed = i;
  host_found = host;
}
within value k i cache other m host = record {
  flag = is_value;
  key_cache = other;
  key_cache_size = m;
  value_cache = cache;
  value_cache_size = k;
  total_parsed = i;
  host_found = host;
}

-- The loop behind its end.
pub header_loop-end :
    (rest : Bytes) (n : ℕ) (s : HeaderScan)
    → n < s.total_parsed
    → header_loop rest n s ≡ ok (true, s)
unfolding header_loop
header_loop-end [] n s h = ground arith
header_loop-end (c ∷ []) n s h = ground arith
header_loop-end (c ∷ d ∷ rest) n s h = ground arith

-- A byte that is neither the end of a key nor a carriage return.
header_loop-cached :
    (c : ℕ) (rest : Bytes) (n : ℕ) (s s' : HeaderScan)
    → ltb n s.total_parsed ≡ false
    → (in_key s && (c == b':')) ≡ false
    → (c == b'\r') ≡ false
    → cache_byte c s ≡ ok s'
    → header_loop (c ∷ rest) n s ≡ header_loop rest n (next_byte s')
unfolding header_loop
header_loop-cached c [] n s s' more colon break cached = rw (more, colon, cached, break)
header_loop-cached c (d ∷ rest) n s s' more colon break cached = rw (more, colon, cached, break)

pub header_loop-byte :
    (part : Part) (c : ℕ) (rest front : Bytes) (y : ℕ) (back : Bytes) (i n : ℕ) (other : Bytes)
    (m : ℕ) (host : Bool)
    → plain part c ≡ true
    → i ≤ n
    → header_loop (c ∷ rest) n (within part (length front) i (front ++ y ∷ back) other m host)
      ≡ header_loop rest n (within part (length front + 1) (i + 1) (front ++ c ∷ back) other m host)
unfolding cache_byte
header_loop-byte key c rest front y back i n other m host p h =
    header_loop-cached c rest n (within key (length front) i (front ++ y ∷ back) other m host)
      (within key (length front + 1) i (front ++ c ∷ back) other m host) (ground arith)
      (ground arith) (ground arith) (rw (write-append front y c back))
header_loop-byte value c rest front y back i n other m host p h =
    header_loop-cached c rest n (within value (length front) i (front ++ y ∷ back) other m host)
      (within value (length front + 1) i (front ++ c ∷ back) other m host) (ground arith)
      (ground arith) (ground arith) (rw (write-append front y c back))

-- The 0 behind the value is stored too.
pub header_loop-nul :
    (rest front : Bytes) (y : ℕ) (back : Bytes) (n : ℕ) (other : Bytes) (m : ℕ) (host : Bool)
    → header_loop (0 ∷ rest) n (within value (length front) n (front ++ y ∷ back) other m host)
      ≡ ok (true, within value (length front + 1) (n + 1) (front ++ 0 ∷ back) other m host)
unfolding cache_byte
header_loop-nul rest front y back n other m host =
    header_loop-cached 0 rest n (within value (length front) n (front ++ y ∷ back) other m host)
      (within value (length front + 1) n (front ++ 0 ∷ back) other m host) (ground arith) refl refl
      (rw (write-append front y 0 back))
    ∙ header_loop-end rest n
        (within value (length front + 1) (n + 1) (front ++ 0 ∷ back) other m host) (omega arith)

header_loop-append :
    (part : Part) (xs rest front back : Bytes) (i n : ℕ) (other : Bytes) (m : ℕ) (host : Bool)
    → is_plain part xs ≡ true
    → length xs ≤ length back
    → i + length xs ≤ n
    → header_loop (xs ++ rest) n (within part (length front) i (front ++ back) other m host)
      ≡ header_loop rest n (
          within part
            (length front + length xs)
            (i + length xs)
            (front ++ (xs ++ drop (length xs) back))
            other
            m
            host)
header_loop-append part [] rest front back i n other m host p room fits =
    let k : length front + 0 ≡ length front = omega arith in
    let j : i + 0 ≡ i = omega arith in rw (k, j)
header_loop-append part (c ∷ xs) rest front [] i n other m host p room fits = absurd (omega arith)
header_loop-append part (c ∷ xs) rest front (y ∷ back) i n other m host p room fits =
    let len : length (front ++ c ∷ []) ≡ length front + 1 =
      omega (arith, length-append front (c ∷ [])) in
    let k : length front + 1 + length xs ≡ length front + suc (length xs) = omega arith in
    let j : i + 1 + length xs ≡ i + suc (length xs) = omega arith in
    let ih =
      header_loop-append part xs rest (front ++ c ∷ []) back (i + 1) n other m host (ground arith)
        (omega arith) (omega arith) in
    header_loop-byte part c (xs ++ rest) front y back i n other m host (ground arith) (omega arith)
    ∙ rw
        (
          len,
          append_assoc front (c ∷ []) back,
          append_assoc front (c ∷ []) (xs ++ drop (length xs) back),
          k,
          j,
        )
        at ih

-- A whole key or value goes to the front of its cache.
pub header_loop-part :
    (part : Part) (xs rest back : Bytes) (i n : ℕ) (other : Bytes) (m : ℕ) (host : Bool)
    → is_plain part xs ≡ true
    → length xs ≤ length back
    → i + length xs ≤ n
    → header_loop (xs ++ rest) n (within part 0 i back other m host)
      ≡ header_loop rest n
          (within part (length xs) (i + length xs) (xs ++ drop (length xs) back) other m host)
header_loop-part part xs rest back i n other m host p room fits =
    let z : 0 + length xs ≡ length xs = omega arith in
    rw z at (header_loop-append part xs rest [] back i n other m host p room fits)
