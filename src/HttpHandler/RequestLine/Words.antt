-- ===== src/HttpHandler/RequestLine/Words.antt =====
-- How the loop of `_validate_http_metadata` takes in a word.
use mathlib.Core.List.{append_assoc}
use orb_weaver.HttpHandler.RequestLine.{Scan, store_byte, next_byte, too_long, metadata_loop}
use orb_weaver.HttpTypes.{HttpRequest, max_http_header_line_size}
use orb_weaver.Memory.Text.{write-append}
use orb_weaver.Memory.{Bytes}
use orb_weaver.Prelude.{
  ℕ, suc, ◌+◌, ◌≤◌, ◌≡◌, refl, ◌∙◌, Bool, true, false, ◌||◌, ◌&&◌, not, [], ◌∷◌, ◌++◌, ok, ◌==◌,
  length, drop, arith, length-append,
}

-- No byte ends a word.
abbrev pub is_word : Bytes → Bool
is_word [] = true
is_word (c ∷ cs) = not (c == b' ' || c == 0) && is_word cs

-- The three words of the line.
pub data Word : Type 0 where
  method route protocol : Word

-- The loop after `i` bytes, `k` of them in the word `w`; the words before it have `a` and `b`
-- bytes.
abbrev pub within : Word → (k i a b : ℕ) → Bytes → Scan
within method k i a b p = record {
  line_partition = p;
  num_parsed = i;
  word_increment = 0;
  method_size = k;
  route_size = 0;
  protocol_size = 0;
}
within route k i a b p = record {
  line_partition = p;
  num_parsed = i;
  word_increment = 1;
  method_size = a;
  route_size = k;
  protocol_size = 0;
}
within protocol k i a b p = record {
  line_partition = p;
  num_parsed = i;
  word_increment = 2;
  method_size = a;
  route_size = b;
  protocol_size = k;
}

store_byte-within :
    (w : Word) (front : Bytes) (y c : ℕ) (back : Bytes) (i a b : ℕ)
    → store_byte c (within w (length front) i a b (front ++ y ∷ back))
      ≡ ok (within w (length front + 1) i a b (front ++ c ∷ back))
unfolding store_byte
store_byte-within method front y c back i a b = rw (write-append front y c back)
store_byte-within route front y c back i a b = rw (write-append front y c back)
store_byte-within protocol front y c back i a b = rw (write-append front y c back)

pub too_long-within :
    (w : Word) (n k i a b : ℕ) (p : Bytes)
    → i ≤ n
    → n ≤ max_http_header_line_size
    → too_long n (within w k i a b p) ≡ false
too_long-within method n k i a b p h m = ground arith
too_long-within route n k i a b p h m = ground arith
too_long-within protocol n k i a b p h m = ground arith

next_byte-within :
    (w : Word) (k i a b : ℕ) (p : Bytes) → next_byte (within w k i a b p) ≡ within w k (i + 1) a b p
next_byte-within method k i a b p = refl
next_byte-within route k i a b p = refl
next_byte-within protocol k i a b p = refl

-- One byte of a word.
metadata_loop-byte :
    (w : Word) (c : ℕ) (rest front : Bytes) (y : ℕ) (back : Bytes) (i a b n : ℕ) (r : HttpRequest)
    → (c == b' ' || c == 0) ≡ false
    → i ≤ n
    → n ≤ max_http_header_line_size
    → metadata_loop (c ∷ rest) n (within w (length front) i a b (front ++ y ∷ back)) r
      ≡ metadata_loop rest n (within w (length front + 1) (i + 1) a b (front ++ c ∷ back)) r
unfolding metadata_loop
metadata_loop-byte w c rest front y back i a b n r inside h m = rw (
  too_long-within w n (length front) i a b (front ++ y ∷ back) h m,
  inside,
  store_byte-within w front y c back i a b,
  next_byte-within w (length front + 1) i a b (front ++ c ∷ back),
)

-- A whole word goes to the partition, behind what is there.
metadata_loop-word :
    (w : Word) (xs rest front back : Bytes) (i a b n : ℕ) (r : HttpRequest)
    → is_word xs ≡ true
    → length xs ≤ length back
    → i + length xs ≤ n
    → n ≤ max_http_header_line_size
    → metadata_loop (xs ++ rest) n (within w (length front) i a b (front ++ back)) r
      ≡ metadata_loop rest n
          (within w
            (length front + length xs)
            (i + length xs)
            a
            b
            (front ++ (xs ++ drop (length xs) back)))
          r
metadata_loop-word w [] rest front back i a b n r word room fits m =
    let k : length front + 0 ≡ length front = omega arith in
    let j : i + 0 ≡ i = omega arith in rw (k, j)
metadata_loop-word w (c ∷ xs) rest front [] i a b n r word room fits m = absurd (omega arith)
metadata_loop-word w (c ∷ xs) rest front (y ∷ back) i a b n r word room fits m =
    let len : length (front ++ c ∷ []) ≡ length front + 1 =
      omega (arith, length-append front (c ∷ [])) in
    let k : length front + 1 + length xs ≡ length front + suc (length xs) = omega arith in
    let j : i + 1 + length xs ≡ i + suc (length xs) = omega arith in
    let ih =
      metadata_loop-word w xs rest (front ++ c ∷ []) back (i + 1) a b n r (ground arith)
        (omega arith) (omega arith) m in
    metadata_loop-byte w c (xs ++ rest) front y back i a b n r (ground arith) (omega arith) m
    ∙ rw
        (
          len,
          append_assoc front (c ∷ []) back,
          append_assoc front (c ∷ []) (xs ++ drop (length xs) back),
          k,
          j,
        )
        at ih

-- A word at the front of the partition.
pub metadata_loop-front :
    (w : Word) (xs rest back : Bytes) (i a b n : ℕ) (r : HttpRequest)
    → is_word xs ≡ true
    → length xs ≤ length back
    → i + length xs ≤ n
    → n ≤ max_http_header_line_size
    → metadata_loop (xs ++ rest) n (within w 0 i a b back) r
      ≡ metadata_loop rest n
          (within w (length xs) (i + length xs) a b (xs ++ drop (length xs) back))
          r
metadata_loop-front w xs rest back i a b n r word room fits m =
    let z : 0 + length xs ≡ length xs = omega arith in
    rw z at (metadata_loop-word w xs rest [] back i a b n r word room fits m)
