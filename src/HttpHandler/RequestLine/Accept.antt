-- ===== src/HttpHandler/RequestLine/Accept.antt =====
-- Request lines of a known method, a route and a known protocol.
use mathlib.Core.List.{append_assoc}
use orb_weaver.HttpHandler.RequestLine.Ends.{
  Method, method_name, method_type, Protocol, protocol_name, protocol_type, method_name-is_word,
  protocol_name-is_word, stored_route, end_word-method, end_word-uninitialised, end_word-route,
  end_word-protocol,
}
use orb_weaver.HttpHandler.RequestLine.Words.{
  is_word, Word, method, route, protocol, within, too_long-within, metadata_loop-front,
}
use orb_weaver.HttpHandler.RequestLine.{
  continue, end_word, next_word, metadata_loop, validate_http_metadata,
}
use orb_weaver.HttpTypes.{HttpRequest, max_http_header_line_size}
use orb_weaver.Memory.{Bytes}
use orb_weaver.Prelude.{
  ℕ, suc, ◌+◌, ◌≤◌, ◌<◌, ◌≡◌, ◌≢◌, refl, ◌∙◌, true, ◌||◌, some, ◌∷◌, ◌++◌, ok, fault,
  null_dereference, ◌==◌, length, get_or, drop, replicate, drop-get_or, drop-zeros, arith,
  length-append, length-replicate,
}

-- The line, without its closing 0.
abbrev pub request_line : Method → Bytes → Protocol → Bytes
request_line m path p = method_name m ++ b' ' ∷ b'/' ∷ (path ++ b' ' ∷ protocol_name p)

abbrev pub accepted : Method → Bytes → Protocol → Bytes → HttpRequest → HttpRequest
accepted m path p buffer r = record r {
  http_method = method_type m;
  http_route = some (stored_route path buffer);
  http_route_size = suc (length path);
  http_protocol = protocol_type p r.http_protocol;
}

-- The end of a word that goes on.
metadata_loop-separator :
    (w : Word) (c k i a b n : ℕ) (p rest : Bytes) (r r' : HttpRequest)
    → (c == b' ' || c == 0) ≡ true
    → i ≤ n
    → n ≤ max_http_header_line_size
    → end_word (within w k i a b p) r ≡ ok (continue r')
    → metadata_loop (c ∷ rest) n (within w k i a b p) r
      ≡ metadata_loop rest n (next_word n (within w k i a b p)) r'
unfolding metadata_loop
metadata_loop-separator w c k i a b n p rest r r' sep h m ended =
    rw (too_long-within w n k i a b p h m, sep, ended)

module _ (m : Method) (path : Bytes) (p : Protocol) (partition rest : Bytes) (r : HttpRequest)
    (w : is_word path ≡ true) (width : length partition ≡ length (request_line m path p))
    (short : length (request_line m path p) ≤ max_http_header_line_size) where
  abbrev n : ℕ
  n = length (request_line m path p)

  abbrev k : ℕ
  k = length (method_name m)

  abbrev behind_method : Bytes
  behind_method = b'/' ∷ path ++ b' ' ∷ (protocol_name p ++ 0 ∷ rest)

  measure : n ≡ k + 1 + suc (length path) + 1 + length (protocol_name p)
  measure = omega (
    arith,
    length-append (method_name m) (b' ' ∷ b'/' ∷ (path ++ b' ' ∷ protocol_name p)),
    length-append path (b' ' ∷ protocol_name p),
  )

  split_line : request_line m path p ++ 0 ∷ rest ≡ method_name m ++ b' ' ∷ behind_method
  split_line = simp append_assoc

  -- The first word.
  to_method :
      validate_http_metadata partition (some (request_line m path p ++ 0 ∷ rest)) n r
      ≡ metadata_loop
          (b' ' ∷ behind_method)
          n
          (within method k k 0 0 (method_name m ++ get_or partition k 1 ∷ drop (suc k) partition))
          r
  unfolding validate_http_metadata
  to_method =
      let z : 0 + k ≡ k = omega arith in
      rw (split_line, ← drop-get_or partition k 1 (omega (arith, width, measure)))
        (rw z at (
          metadata_loop-front method (method_name m) (b' ' ∷ behind_method) partition 0 0 0 n r
            (method_name-is_word m) (omega (arith, width, measure)) (omega (arith, measure)) short))

  -- The other words.
  from_route :
      (buffer : Bytes) (r' : HttpRequest)
      → r'.http_route ≡ some buffer
      → length path + 2 ≤ length buffer
      → metadata_loop behind_method n (within route 0 (k + 1) k 0 (replicate n 0)) r'
        ≡ metadata_loop
            (protocol_name p ++ 0 ∷ rest)
            n
            (within protocol 0
              (k + 1 + suc (length path) + 1)
              k
              (suc (length path))
              (replicate n 0))
            (record r' {
              http_route = some (stored_route path buffer);
              http_route_size = suc (length path);
            })
  from_route buffer r' has room =
      metadata_loop-front route (b'/' ∷ path) (b' ' ∷ (protocol_name p ++ 0 ∷ rest)) (replicate n 0)
        (k + 1) k 0 n r' (ground arith) (omega (arith, measure, length-replicate {A = ℕ} n 0))
        (omega (arith, measure)) short
      ∙ rw (drop-zeros n (suc (length path)) (omega (arith, measure))) (
          metadata_loop-separator route b' ' (suc (length path)) (k + 1 + suc (length path)) k 0 n
            (b'/' ∷ path ++ 0 ∷ drop (suc (suc (length path))) (replicate n 0))
            (protocol_name p ++ 0 ∷ rest) r' _ refl (omega (arith, measure)) short
            (end_word-route path (drop (suc (suc (length path))) (replicate n 0)) buffer
              (k + 1 + suc (length path)) k 0 r' w has room))

  from_protocol :
      (j : ℕ) (r' : HttpRequest)
      → j + length (protocol_name p) ≤ n
      → length (protocol_name p) < n
      → metadata_loop
          (protocol_name p ++ 0 ∷ rest)
          n
          (within protocol 0 j k (suc (length path)) (replicate n 0))
          r'
        ≡ ok (true, record r' { http_protocol = protocol_type p r'.http_protocol })
  unfolding metadata_loop
  from_protocol j r' fits room =
      metadata_loop-front protocol (protocol_name p) (0 ∷ rest) (replicate n 0) j k
        (suc (length path)) n r' (protocol_name-is_word p)
        (omega (arith, length-replicate {A = ℕ} n 0)) fits short
      ∙ rw (
        drop-zeros n (length (protocol_name p)) room,
        too_long-within protocol n (length (protocol_name p)) (j + length (protocol_name p)) k
            (suc (length path))
            (protocol_name p ++ 0 ∷ drop (suc (length (protocol_name p))) (replicate n 0)) fits
            short,
        end_word-protocol p (j + length (protocol_name p)) k (suc (length path))
            (drop (suc (length (protocol_name p))) (replicate n 0)) r',
      )

  -- A request line of a known method, a route without spaces and a known protocol, of at most 8192
  -- bytes, is accepted and stored in the request, if the route fits in its buffer and the
  -- uninitialised byte of `line_partition` behind the method happens to be 0.
  pub validate_http_metadata-accepted :
      (buffer : Bytes)
      → r.http_route ≡ some buffer
      → length path + 2 ≤ length buffer
      → get_or partition (length (method_name m)) 1 ≡ 0
      → validate_http_metadata partition
          (some (request_line m path p ++ 0 ∷ rest))
          (length (request_line m path p))
          r
        ≡ ok (true, accepted m path p buffer r)
  validate_http_metadata-accepted buffer has room zeroed =
      to_method
      ∙ rw zeroed (
          metadata_loop-separator method b' ' k k 0 0 n
            (method_name m ++ 0 ∷ drop (suc k) partition) behind_method r _ refl
            (omega (arith, measure)) short (end_word-method m k 0 0 (drop (suc k) partition) r))
      ∙ from_route buffer (record r { http_method = method_type m }) has room
      ∙ from_protocol (k + 1 + suc (length path) + 1) _ (omega (arith, measure))
          (omega (arith, measure))

  -- If the uninitialised byte of `line_partition` behind the method is not 0, the same line makes
  -- the search for the method run into the `NULL` name at the end of `method_entries`.
  pub validate_http_metadata-uninitialised :
      get_or partition (length (method_name m)) 1 ≢ 0
      → validate_http_metadata partition
          (some (request_line m path p ++ 0 ∷ rest))
          (length (request_line m path p))
          r
        ≡ fault null_dereference
  unfolding metadata_loop
  validate_http_metadata-uninitialised garbage =
      to_method
      ∙ rw (
        too_long-within method n k k 0 0
            (method_name m ++ get_or partition k 1 ∷ drop (suc k) partition)
            (omega (arith, measure)) short,
        end_word-uninitialised m k 0 0 (get_or partition k 1) (drop (suc k) partition) r garbage,
      )
