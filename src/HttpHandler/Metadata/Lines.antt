-- ===== src/HttpHandler/Metadata/Lines.antt =====
-- How the loop of `_get_http_metadata` takes in a line.
use mathlib.Core.List.{append_assoc}
use orb_weaver.HttpHandler.Metadata.{
  Allocations, Parse, copy_line, end_line, last_line, next_line, done, again, carriage_return,
  raw_loop,
}
use orb_weaver.HttpTypes.{HttpRequest, HeaderPointer, max_http_header_line_size}
use orb_weaver.Memory.Text.{write-append}
use orb_weaver.Memory.{Bytes, read}
use orb_weaver.Prelude.{
  ℕ, suc, ◌+◌, ◌≤◌, ◌<◌, ◌≡◌, refl, ◌∙◌, Bool, true, false, ◌||◌, ◌&&◌, not, List, [], ◌∷◌, ◌++◌,
  ok, ◌==◌, ==_ne, if◌then◌else◌, Bool-cases, inl, inr, length, drop, drop-zeros, replicate,
  length-replicate, arith, length-append,
}

-- No byte is a carriage return or 0.
abbrev pub is_line : Bytes → Bool
is_line [] = true
is_line (c ∷ cs) = not (c == b'\r' || c == 0) && is_line cs

abbrev pub state : Bytes → ℕ → ℕ → List HeaderPointer → HttpRequest → Parse
state buffer i line headers r = record {
  header_buffer = buffer;
  num_parsed = i;
  line_increment = line;
  validated_headers = headers;
  request = r;
}

abbrev pub zeros : Bytes
zeros = replicate max_http_header_line_size 0

raw_loop-byte :
    (memory : ℕ → Allocations) (garbage : ℕ → Bytes) (c : ℕ) (rest front : Bytes) (y : ℕ)
    (back : Bytes) (line : ℕ) (headers : List HeaderPointer) (r : HttpRequest)
    → (c == b'\r') ≡ false
    → length front < max_http_header_line_size
    → raw_loop memory garbage (c ∷ rest) (state (front ++ y ∷ back) (length front) line headers r)
      ≡ raw_loop memory garbage rest (state (front ++ c ∷ back) (length front + 1) line headers r)
unfolding raw_loop
raw_loop-byte memory garbage c [] front y back line headers r plain lt =
    let more : (length front == max_http_header_line_size) ≡ false =
      ==_ne (length front) max_http_header_line_size (λ e. omega arith) in
    rw (more, plain, write-append front y c back)
raw_loop-byte memory garbage c (d ∷ rest) front y back line headers r plain lt =
    let more : (length front == max_http_header_line_size) ≡ false =
      ==_ne (length front) max_http_header_line_size (λ e. omega arith) in
    rw (more, plain, write-append front y c back)

module _ (memory : ℕ → Allocations) (garbage : ℕ → Bytes) (line : ℕ) (headers : List HeaderPointer)
    (r : HttpRequest) where
  raw_loop-append :
      (xs rest front back : Bytes)
      → is_line xs ≡ true
      → length xs ≤ length back
      → length front + length back ≤ max_http_header_line_size
      → raw_loop memory garbage (xs ++ rest) (state (front ++ back) (length front) line headers r)
        ≡ raw_loop memory garbage rest (
            state
              (front ++ (xs ++ drop (length xs) back))
              (length front + length xs)
              line
              headers
              r)
  raw_loop-append [] rest front back p room fits =
      let k : length front + 0 ≡ length front = omega arith in rw k
  raw_loop-append (c ∷ xs) rest front [] p room fits = absurd (omega arith)
  raw_loop-append (c ∷ xs) rest front (y ∷ back) p room fits =
      let len : length (front ++ c ∷ []) ≡ length front + 1 =
        omega (arith, length-append front (c ∷ [])) in
      let k : length front + 1 + length xs ≡ length front + suc (length xs) = omega arith in
      let ih =
        raw_loop-append xs rest (front ++ c ∷ []) back (ground arith) (omega arith)
          (omega (arith, len)) in
      raw_loop-byte memory garbage c (xs ++ rest) front y back line headers r (ground arith)
        (omega arith)
      ∙ rw
          (
            len,
            append_assoc front (c ∷ []) back,
            append_assoc front (c ∷ []) (xs ++ drop (length xs) back),
            k,
          )
          at ih

  -- A whole line goes to the front of a buffer of zeros, which stays closed by a 0.
  pub raw_loop-line :
      (n : ℕ) (xs rest : Bytes)
      → is_line xs ≡ true
      → length xs < n
      → n ≤ max_http_header_line_size
      → raw_loop memory garbage (xs ++ rest) (state (replicate n 0) 0 line headers r)
        ≡ raw_loop memory garbage rest
            (state (xs ++ 0 ∷ drop (suc (length xs)) (replicate n 0)) (length xs) line headers r)
  raw_loop-line n xs rest p room fits =
      let z : 0 + length xs ≡ length xs = omega arith in
      let zs : length (replicate {A = ℕ} n 0) ≡ n = length-replicate n 0 in
      rw (← drop-zeros n (length xs) room) (
        rw z at
          (raw_loop-append xs rest [] (replicate n 0) p (omega (arith, zs)) (omega (arith, zs))))

copy_line-nul :
    (xs zs : Bytes)
    → is_line xs ≡ true
    → copy_line (length xs + 1) (xs ++ 0 ∷ zs) ≡ ok (xs ++ 0 ∷ [], length xs)
unfolding copy_line
copy_line-nul [] zs p = refl
copy_line-nul (c ∷ xs) zs p =
    let inside : (c == 0) ≡ false = ground arith in
    let succ : suc (length xs) + 1 ≡ suc (length xs + 1) = omega arith in
    let back : length xs + 1 ≡ suc (length xs) = omega arith in
    rw (succ, inside, copy_line-nul xs zs (ground arith), back)

-- A carriage return and a newline behind a line that its parser accepts.
pub carriage_return-line :
    (memory : ℕ → Allocations) (garbage : ℕ → Bytes) (xs zs tail : Bytes) (line : ℕ)
    (headers : List HeaderPointer) (r : HttpRequest) (s : Parse) (last : Bool)
    → is_line xs ≡ true
    → end_line memory garbage (xs ++ 0 ∷ []) (state (xs ++ 0 ∷ zs) (length xs) line headers r)
      ≡ ok (true, s)
    → last_line (b'\n' ∷ tail) ≡ ok last
    → carriage_return memory garbage
        (b'\n' ∷ tail)
        (state (xs ++ 0 ∷ zs) (length xs) line headers r)
      ≡ ok (if last then done s else again (next_line s))
unfolding carriage_return read
carriage_return-line memory garbage xs zs tail line headers r s last p ended final =
    let same : (length xs == length xs) ≡ true = ground arith in
    rw (copy_line-nul xs zs p, same, ended, final)
      (elim (Bool-cases last) [ inl yea ↦ rw yea | inr nay ↦ rw nay ])
