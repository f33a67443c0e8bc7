-- ===== src/HttpHandler/Metadata/Message.antt =====
-- A whole message: the request line, the headers and the empty line.
use orb_weaver.HttpHandler.Metadata.Headers.{plenty}
use orb_weaver.HttpHandler.Metadata.Lines.{is_line, state, raw_loop-line}
use orb_weaver.HttpHandler.Metadata.Request.{
  Header, render, WellFormed, pointers, with_hosts, last_line-render, raw_loop-end_line,
  raw_loop-render,
}
use orb_weaver.HttpHandler.Metadata.{Parse, end_line, persist_headers, raw_loop, get_http_metadata}
use orb_weaver.HttpHandler.RequestLine.Accept.{
  request_line, accepted, validate_http_metadata-accepted,
}
use orb_weaver.HttpHandler.RequestLine.Ends.{
  Method, method_name, Protocol, protocol_name, get, unversioned,
}
use orb_weaver.HttpHandler.RequestLine.Words.{is_word}
use orb_weaver.HttpTypes.{
  HttpRequest, HeaderPointer, max_http_header_line_size, max_http_header_count,
  max_http_header_total_size,
}
use orb_weaver.Memory.{Bytes}
use orb_weaver.Prelude.{
  ℕ, suc, ◌+◌, ◌*◌, ◌≤◌, ◌<◌, ◌≡◌, refl, ap, ◌∙◌, true, false, some, List, [], ◌∷◌, ◌++◌, ok, ltb,
  ◌==◌, ==_ne, length, replicate, drop, get_or, arith, ge→ltb,
}

is_line-append : (xs ys : Bytes) → is_line xs ≡ true → is_line ys ≡ true → is_line (xs ++ ys) ≡ true
is_line-append [] ys p q = q
is_line-append (c ∷ xs) ys p q = ground (arith, is_line-append xs ys)

is_line-method_name : (m : Method) → is_line (method_name m) ≡ true
is_line-method_name get = refl
is_line-method_name _ = refl

is_line-protocol_name : (p : Protocol) → is_line (protocol_name p) ≡ true
is_line-protocol_name unversioned = refl
is_line-protocol_name _ = refl

length-pointers : (hs : List Header) → length (pointers hs) ≡ length hs
length-pointers [] = refl
length-pointers ((k, v) ∷ hs) = ap suc (length-pointers hs)

persist_headers-list :
    (s : Parse) (headers : List HeaderPointer) (q : HttpRequest) (host : Bytes)
    → s.validated_headers ≡ headers
    → s.request ≡ q
    → q.http_host ≡ some host
    → persist_headers true s
      ≡ ok (
        true,
        record q {
          num_headers = length headers;
          http_headers_size = length headers * 8;
          http_headers = headers;
        },
      )
unfolding persist_headers
persist_headers-list s headers q host hd req found =
    let found' : s.request.http_host ≡ some host =
      ap (λ (x : HttpRequest). x.http_host) req ∙ found in
    rw (found', hd, req, found)

module _ (m : Method) (path : Bytes) (p : Protocol) (h : Header) (hs : List Header)
    (garbage : ℕ → Bytes) (r : HttpRequest) (word : is_word path ≡ true)
    (line : is_line path ≡ true)
    (short : length (request_line m path p) < max_http_header_line_size)
    (width : length (garbage (length (request_line m path p))) ≡ length (request_line m path p))
    (zeroed : get_or (garbage (length (request_line m path p))) (length (method_name m)) 1 ≡ 0)
    (formed : WellFormed (h ∷ hs)) (few : length (h ∷ hs) ≤ max_http_header_count)
    (rest : Bytes) where
  abbrev pub message : Bytes
  message = request_line m path p ++ b'\r' ∷ b'\n' ∷ render (h ∷ hs) rest

  request_line-is_line : is_line (request_line m path p) ≡ true
  request_line-is_line =
      is_line-append (method_name m) (b' ' ∷ b'/' ∷ (path ++ b' ' ∷ protocol_name p))
        (is_line-method_name m)
        (is_line-append path (b' ' ∷ protocol_name p) line (is_line-protocol_name p))

  module _ (buffer : Bytes) (has : r.http_route ≡ some buffer)
      (room : length path + 2 ≤ length buffer) where
    abbrev pub received : HttpRequest
    received = record (with_hosts (h ∷ hs) (accepted m path p buffer r)) {
      num_headers = length (h ∷ hs);
      http_headers_size = length (h ∷ hs) * 8;
      http_headers = pointers (h ∷ hs);
    }

    raw_loop-message :
        (s : Parse) × (raw_loop
            (λ _. plenty)
            garbage
            message
            (state (replicate max_http_header_line_size 0) 0 0 [] r)
          ≡ ok (true, s))
        × (s.validated_headers ≡ pointers (h ∷ hs))
        × (s.request ≡ with_hosts (h ∷ hs) (accepted m path p buffer r))
    unfolding end_line
    raw_loop-message =
        let zs : Bytes =
          drop (suc (length (request_line m path p))) (replicate max_http_header_line_size 0) in
        let (s, run, hd, req) =
          raw_loop-render garbage h.0 h.1 hs rest 1 [] (accepted m path p buffer r) formed
            (omega arith) (omega arith) in
        let valid =
          validate_http_metadata-accepted m path p (garbage (length (request_line m path p))) [] r
            word width (omega arith) buffer has room zeroed in
        (
          s,
          raw_loop-line (λ _. plenty) garbage 0 [] r max_http_header_line_size
                (request_line m path p) (b'\r' ∷ b'\n' ∷ render (h ∷ hs) rest) request_line-is_line
                short (omega arith)
              ∙ raw_loop-end_line garbage (request_line m path p) (render (h ∷ hs) rest) zs 0 [] r
                  (state (request_line m path p ++ 0 ∷ zs) (length (request_line m path p)) 0 []
                    (accepted m path p buffer r))
                  false request_line-is_line short (rw valid)
                  (last_line-render (h ∷ hs) rest formed)
              ∙ run,
          hd,
          req,
        )

    -- A message of a request line (a known method, a route without spaces, carriage returns and
    -- zeros that fits in its buffer, a known protocol), of 1 to 100 well-formed header lines and of
    -- the empty line, each line below 8192 bytes, is received in full, whatever follows it: with memory for all copies,
    -- and a 0 behind the method in the uninitialised `line_partition`, which has the size of the
    -- line, `_get_http_metadata` returns `true` if there is a host, and the request has the method,
    -- the route, the protocol, every header in order, and the last host.
    pub get_http_metadata-received :
        (raw_size : ℕ) (host : Bytes)
        → 0 < raw_size
        → raw_size ≤ max_http_header_total_size
        → (with_hosts (h ∷ hs) (accepted m path p buffer r)).http_host ≡ some host
        → get_http_metadata (λ _. plenty) garbage true (some message) raw_size (some r)
          ≡ ok (true, some received)
    unfolding get_http_metadata
    get_http_metadata-received raw_size host pos max found =
        let (s, run, hd, req) = raw_loop-message in
        let given : (raw_size == 0) ≡ false = ==_ne raw_size 0 (λ e. omega arith) in
        let fits : ltb max_http_header_total_size raw_size ≡ false =
          ge→ltb max_http_header_total_size raw_size max in
        rw (
          given,
          fits,
          run,
          persist_headers-list s (pointers (h ∷ hs))
              (with_hosts (h ∷ hs) (accepted m path p buffer r)) host hd req found,
          length-pointers hs,
        )
