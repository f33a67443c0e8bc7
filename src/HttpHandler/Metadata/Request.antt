-- ===== src/HttpHandler/Metadata/Request.antt =====
-- Whole header sections: a request line and header lines.
use mathlib.Core.List.{append_assoc}
use orb_weaver.HttpHandler.HeaderLine.Accept.{header_line, parsed}
use orb_weaver.HttpHandler.HeaderLine.Fields.{key, value, is_plain}
use orb_weaver.HttpHandler.Metadata.Headers.{plenty, with_host, parse_header-parsed}
use orb_weaver.HttpHandler.Metadata.Lines.{is_line, state, raw_loop-line, carriage_return-line}
use orb_weaver.HttpHandler.Metadata.{
  Parse, add_header, end_line, last_line, next_line, done, again, refused, raw_loop,
}
use orb_weaver.HttpTypes.{
  HttpRequest, HeaderPointer, live, max_http_header_line_size, max_http_header_count,
}
use orb_weaver.Memory.{Bytes, read}
use orb_weaver.Prelude.{
  ℕ, suc, ◌+◌, ◌≤◌, ◌<◌, ◌≡◌, refl, ◌∙◌, Bool, true, false, List, [], ◌∷◌, ◌++◌, ok, ltb, leb, ◌==◌,
  ==_ne, if◌then◌else◌, length, replicate, drop, arith, length-append, ge→ltb,
}

abbrev pub Header : Type 0
Header = Bytes × Bytes

-- The headers and the empty line behind them, in front of `rest`.
abbrev pub render : List Header → Bytes → Bytes
render [] rest = b'\r' ∷ b'\n' ∷ rest
render ((k, v) ∷ hs) rest = header_line k v ++ b'\r' ∷ b'\n' ∷ render hs rest

abbrev pub WellFormed : List Header → Type 0
WellFormed [] = Unit
WellFormed ((k, v) ∷ hs) =
    (is_plain key k ≡ true)
    × (is_plain value v ≡ true)
    × (length (header_line k v) < max_http_header_line_size)
    × WellFormed hs

abbrev pub pointers : List Header → List HeaderPointer
pointers [] = []
pointers ((k, v) ∷ hs) = live (parsed k v) ∷ pointers hs

-- The request behind all its `Host` headers.
abbrev pub with_hosts : List Header → HttpRequest → HttpRequest
with_hosts [] r = r
with_hosts ((k, v) ∷ hs) r = with_hosts hs (with_host k v r)

abbrev pub is_nil : List Header → Bool
is_nil [] = true
is_nil (_ ∷ _) = false

pub last_line-render :
    (hs : List Header) (rest : Bytes)
    → WellFormed hs
    → last_line (b'\n' ∷ render hs rest) ≡ ok (is_nil hs)
unfolding last_line read
last_line-render [] rest h = refl
last_line-render (([], v) ∷ hs) rest h = refl
last_line-render ((c ∷ k, v) ∷ hs) rest (p, q, lt, h) =
    let other : (c == b'\r') ≡ false = ground arith in rw other

is_line-value : (v : Bytes) → is_plain value v ≡ true → is_line v ≡ true
is_line-value [] p = refl
is_line-value (c ∷ v) p = ground (arith, is_line-value v)

is_line-header_line :
    (k v : Bytes)
    → is_plain key k ≡ true
    → is_plain value v ≡ true
    → is_line (header_line k v) ≡ true
is_line-header_line [] v p q = is_line-value v q
is_line-header_line (c ∷ k) v p q = ground (arith, is_line-header_line k v)

module _ (garbage : ℕ → Bytes) where
  end_line-header :
      (k v buffer : Bytes) (line : ℕ) (headers : List HeaderPointer) (r : HttpRequest)
      → is_plain key k ≡ true
      → is_plain value v ≡ true
      → 0 < line
      → length headers < max_http_header_count
      → end_line
          (λ _. plenty)
          garbage
          (header_line k v ++ 0 ∷ [])
          (state buffer (length (header_line k v)) line headers r)
        ≡ ok (
          true,
          state buffer
              (length (header_line k v))
              line
              (headers ++ live (parsed k v) ∷ [])
              (with_host k v r),
        )
  unfolding end_line add_header
  end_line-header k v buffer line headers r p q pos room =
      let later : ltb line 1 ≡ false = ge→ltb line 1 (omega arith) in
      let free : leb max_http_header_count (length headers) ≡ false = ground arith in
      rw (later, parse_header-parsed k v [] r p q, free)

  -- The end of a line in the loop.
  pub raw_loop-end_line :
      (xs tail zs : Bytes) (line : ℕ) (headers : List HeaderPointer) (r : HttpRequest) (s : Parse)
      (last : Bool)
      → is_line xs ≡ true
      → length xs < max_http_header_line_size
      → end_line
          (λ _. plenty)
          garbage
          (xs ++ 0 ∷ [])
          (state (xs ++ 0 ∷ zs) (length xs) line headers r)
        ≡ ok (true, s)
      → last_line (b'\n' ∷ tail) ≡ ok last
      → raw_loop
          (λ _. plenty)
          garbage
          (b'\r' ∷ b'\n' ∷ tail)
          (state (xs ++ 0 ∷ zs) (length xs) line headers r)
        ≡ (if last then ok (true, s) else raw_loop (λ _. plenty) garbage tail (next_line s))
  unfolding raw_loop
  raw_loop-end_line xs tail zs line headers r s last p lt ended final =
      let more : (length xs == max_http_header_line_size) ≡ false =
        ==_ne (length xs) max_http_header_line_size (λ e. omega arith) in
      rw
        (
          more,
          carriage_return-line (λ _. plenty) garbage xs zs tail line headers r s last p ended final,
        )
        (at last)
    where
      at :
          (b : Bool)
          → (elim (if b then done s else again (next_line s)) [
            | refused s' ↦ ok (false, s')
            | done s' ↦ ok (true, s')
            | again s' ↦ raw_loop (λ _. plenty) garbage tail s'
          ])
            ≡ (if b then ok (true, s) else raw_loop (λ _. plenty) garbage tail (next_line s))
      at true = refl
      at false = refl

  pub raw_loop-render :
      (k v : Bytes) (hs : List Header) (rest : Bytes) (line : ℕ) (headers : List HeaderPointer)
      (r : HttpRequest)
      → WellFormed ((k, v) ∷ hs)
      → 0 < line
      → length headers + length ((k, v) ∷ hs) ≤ max_http_header_count
      → (s : Parse) × (raw_loop
            (λ _. plenty)
            garbage
            (render ((k, v) ∷ hs) rest)
            (state (replicate max_http_header_line_size 0) 0 line headers r)
          ≡ ok (true, s))
        × (s.validated_headers ≡ headers ++ pointers ((k, v) ∷ hs))
        × (s.request ≡ with_hosts ((k, v) ∷ hs) r)
  raw_loop-render k v [] rest line headers r (p, q, lt, h) pos room =
      let zs : Bytes =
        drop (suc (length (header_line k v))) (replicate max_http_header_line_size 0) in
      (
        state (header_line k v ++ 0 ∷ zs) (length (header_line k v)) line
            (headers ++ live (parsed k v) ∷ []) (with_host k v r),
        raw_loop-line (λ _. plenty) garbage line headers r max_http_header_line_size
              (header_line k v) (b'\r' ∷ b'\n' ∷ render [] rest) (is_line-header_line k v p q) lt
              (omega arith)
            ∙ raw_loop-end_line (header_line k v) (render [] rest) zs line headers r _ true
                (is_line-header_line k v p q) lt
                (end_line-header k v (header_line k v ++ 0 ∷ zs) line headers r p q pos
                  (omega arith))
                (last_line-render [] rest tt),
        refl,
        refl,
      )
  raw_loop-render k v ((k', v') ∷ hs) rest line headers r (p, q, lt, h) pos room =
      let zs : Bytes =
        drop (suc (length (header_line k v))) (replicate max_http_header_line_size 0) in
      let (s, run, hd, req) =
        raw_loop-render k' v' hs rest (line + 1) (headers ++ live (parsed k v) ∷ [])
          (with_host k v r) h (omega arith)
          (omega (arith, length-append headers (live (parsed k v) ∷ []))) in
      (
        s,
        raw_loop-line (λ _. plenty) garbage line headers r max_http_header_line_size
              (header_line k v) (b'\r' ∷ b'\n' ∷ render ((k', v') ∷ hs) rest)
              (is_line-header_line k v p q) lt (omega arith)
            ∙ raw_loop-end_line (header_line k v) (render ((k', v') ∷ hs) rest) zs line headers r _
                false (is_line-header_line k v p q) lt
                (end_line-header k v (header_line k v ++ 0 ∷ zs) line headers r p q pos
                  (omega arith))
                (last_line-render ((k', v') ∷ hs) rest h)
            ∙ run,
        hd ∙ append_assoc headers (live (parsed k v) ∷ []) (pointers ((k', v') ∷ hs)),
        req,
      )
