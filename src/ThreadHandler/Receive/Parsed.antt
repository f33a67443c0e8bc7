-- ===== src/ThreadHandler/Receive/Parsed.antt =====
-- A request from its chunks to the parsed request.
use mathlib.Core.List.{append_assoc}
use orb_weaver.HttpHandler.HeaderLine.Accept.{header_line}
use orb_weaver.HttpHandler.Metadata.Headers.{plenty}
use orb_weaver.HttpHandler.Metadata.Lines.{is_line}
use orb_weaver.HttpHandler.Metadata.Message.{received, get_http_metadata-received}
use orb_weaver.HttpHandler.Metadata.Request.{Header, WellFormed, render, with_hosts}
use orb_weaver.HttpHandler.Metadata.{get_http_metadata}
use orb_weaver.HttpHandler.Process.{all_memory, buffer, fresh, process_http_request-invalid_free}
use orb_weaver.HttpHandler.RequestLine.Accept.{request_line, accepted}
use orb_weaver.HttpHandler.RequestLine.Ends.{Method, method_name, Protocol}
use orb_weaver.HttpHandler.RequestLine.Words.{is_word}
use orb_weaver.HttpTypes.{HttpRequest, max_http_header_line_size, max_http_header_count}
use orb_weaver.Memory.Text.{nonzero}
use orb_weaver.Memory.{Bytes}
use orb_weaver.Prelude.{
  ℕ, suc, ◌-◌, false, ◌==◌, ◌+◌, ◌≤◌, ◌<◌, ◌≡◌, refl, sym, ap, ◌∙◌, true, Option, none, some, fault,
  invalid_free, List, [], ◌∷◌, ◌++◌, arith, ok, length, length-append, take, drop, replicate,
  get_or,
}
use orb_weaver.ThreadHandler.Receive.Chunks.{
  Delivers, memmem-append, take-drop, get_request_headers-Delivers,
}
use orb_weaver.ThreadHandler.Receive.Headers.{Bounded}
use orb_weaver.ThreadHandler.Receive.{
  Recv, receive_buffer_size, end_of_buffer, content_length_header, begins, memmem, strstr,
  succeeded, get_request_headers, receive_request, process_request,
}

render-append : (hs : List Header) (rest : Bytes) → render hs [] ++ rest ≡ render hs rest
render-append [] rest = refl
render-append ((k, v) ∷ hs) rest =
    append_assoc (header_line k v) (b'\r' ∷ b'\n' ∷ render hs []) rest
    ∙ ap (λ t. header_line k v ++ b'\r' ∷ b'\n' ∷ t) (render-append hs rest)

memmem-render : (hs : List Header) → memmem (b'\r' ∷ b'\n' ∷ render hs []) end_of_buffer ≡ true
unfolding memmem begins
memmem-render [] = refl
memmem-render ((k, v) ∷ hs) =
    memmem-append (b'\r' ∷ b'\n' ∷ header_line k v) (b'\r' ∷ b'\n' ∷ render hs []) end_of_buffer
      (memmem-render hs)

begins-before_zero :
    (little xs rest : Bytes)
    → nonzero little ≡ true
    → begins little (xs ++ 0 ∷ rest) ≡ begins little xs
unfolding begins
begins-before_zero [] xs rest plain = refl
begins-before_zero (c ∷ little) [] rest plain = ground arith
begins-before_zero (c ∷ little) (x ∷ xs) rest plain =
    ground (arith, begins-before_zero little xs rest)

-- `strstr` looks no further than the first 0.
strstr-missing :
    (xs rest little : Bytes)
    → nonzero xs ≡ true
    → nonzero little ≡ true
    → memmem xs little ≡ false
    → strstr (xs ++ 0 ∷ rest) little ≡ ok none
unfolding strstr memmem
strstr-missing [] rest little plain name missing = refl
strstr-missing (x ∷ xs) rest little plain name missing =
    let is_byte : (x == 0) ≡ false = ground arith in
    let elsewhere : begins little (x ∷ xs) ≡ false = ground arith in
    let same = begins-before_zero little (x ∷ xs) rest name in
    rw (is_byte, same, elsewhere) (strstr-missing xs rest little (ground arith) name (ground arith))

module _ (m : Method) (path : Bytes) (p : Protocol) (h : Header) (hs : List Header)
    (garbage : ℕ → Bytes) (word : is_word path ≡ true) (line : is_line path ≡ true)
    (short : length (request_line m path p) < max_http_header_line_size)
    (width : length (garbage (length (request_line m path p))) ≡ length (request_line m path p))
    (zeroed : get_or (garbage (length (request_line m path p))) (length (method_name m)) 1 ≡ 0)
    (formed : WellFormed (h ∷ hs)) (few : length (h ∷ hs) ≤ max_http_header_count) where
  -- The bytes that a client sends.
  abbrev pub sent : Bytes
  sent = request_line m path p ++ b'\r' ∷ b'\n' ∷ render (h ∷ hs) []

  memmem-sent : memmem sent end_of_buffer ≡ true
  memmem-sent =
      memmem-append (request_line m path p) (b'\r' ∷ b'\n' ∷ render (h ∷ hs) []) end_of_buffer
        (memmem-render (h ∷ hs))

  length-sent : 0 < length sent
  length-sent =
      omega (arith, length-append (request_line m path p) (b'\r' ∷ b'\n' ∷ render (h ∷ hs) []))

  in_buffer :
      (b : Bytes)
      → take (length sent) b ≡ sent
      → b ≡ request_line m path p ++ b'\r' ∷ b'\n' ∷ render (h ∷ hs) (drop (length sent) b)
  in_buffer b front =
      sym (take-drop (length sent) b)
      ∙ ap (◌++ drop (length sent) b) front
      ∙ append_assoc (request_line m path p) (b'\r' ∷ b'\n' ∷ render (h ∷ hs) [])
          (drop (length sent) b)
      ∙ ap (λ t. request_line m path p ++ b'\r' ∷ b'\n' ∷ t)
          (render-append (h ∷ hs) (drop (length sent) b))

  -- With memory for all copies, and a 0 behind the method in the uninitialised `line_partition`,
  -- which has the size of the line: a message of a request line, of 1 to 100 well-formed header lines
  -- with a host, and of the empty line, at most 8192 bytes in all, that comes in any number of
  -- chunks, none of them empty or larger than what was asked for, is received and parsed.
  -- `_get_request_headers` returns `true` behind the last chunk, and `_get_http_metadata`, on the
  -- buffer and the total that it leaves, returns `true` and the request with the method, the route,
  -- the protocol, every header in order, and the last host, if the route fits in its buffer.
  pub get_request_headers-received :
      (recv : Recv) (k : ℕ) (r : HttpRequest) (buffer host : Bytes)
      (has : r.http_route ≡ some buffer) (room : length path + 2 ≤ length buffer)
      → Bounded recv
      → Delivers recv k sent
      → length sent ≤ max_http_header_line_size
      → (with_hosts (h ∷ hs) (accepted m path p buffer r)).http_host ≡ some host
      → (b : Bytes) × (get_request_headers recv (replicate receive_buffer_size 0) 0
          ≡ ok (succeeded b (length sent) k))
        × (get_http_metadata (λ _. plenty) garbage true (some b) (length sent) (some r)
            ≡ ok (
              true,
              some (
                  received m path p h hs garbage r word line short width zeroed formed few [] buffer
                    has room),
            ))
  get_request_headers-received recv k r buffer host has room bounded delivers small found =
      let (b, run, front, zeros) =
        get_request_headers-Delivers recv k sent bounded delivers memmem-sent small in
      let parsed =
        get_http_metadata-received m path p h hs garbage r word line short width zeroed formed few
          (drop (length sent) b) buffer has room (length sent) host length-sent (omega arith)
          found in
      (b, run, rw (in_buffer b front) parsed)

  -- With all memory, and a 0 behind the method in the uninitialised `line_partition`, which has the
  -- size of the line: where a message of a request line, of 1 to 100 well-formed header lines with a
  -- host, and of the empty line, at most 8192 bytes in all, none of them 0, in which the text
  -- `Content-Length:` does not occur, comes in any number of chunks, none of them empty or larger
  -- than what was asked for, `_process_request` does not return: `free_http_request` passes to `free`
  -- an address that was not allocated.
  pub process_request-invalid_free :
      (recv : Recv) (strtoul : Bytes → Option ℕ) (k : ℕ) (host : Bytes)
      → Bounded recv
      → Delivers recv k sent
      → length sent ≤ max_http_header_line_size
      → nonzero sent ≡ true
      → memmem sent content_length_header ≡ false
      → (with_hosts (h ∷ hs) (accepted m path p buffer fresh)).http_host ≡ some host
      → process_request recv strtoul
          (record { buffer = true; response = true })
          all_memory
          (λ _. plenty)
          garbage
          true
        ≡ fault invalid_free
  unfolding process_request receive_request
  process_request-invalid_free recv strtoul k host bounded delivers small plain no_length found =
      let (b, run, front, zeros) =
        get_request_headers-Delivers recv k sent bounded delivers memmem-sent small in
      let stuck =
        process_http_request-invalid_free m path p h hs garbage word line short width zeroed formed
          few (drop (length sent) b) (length sent) host length-sent (omega arith) found in
      let (n, more) : (n : ℕ) × (receive_buffer_size - length sent ≡ suc n) =
        (receive_buffer_size - length sent - 1, omega arith) in
      let tail : drop (length sent) b ≡ 0 ∷ replicate n 0 = zeros ∙ ap (λ k. replicate k 0) more in
      let whole : b ≡ sent ++ 0 ∷ replicate n 0 =
        sym (take-drop (length sent) b)
        ∙ ap (◌++ drop (length sent) b) front
        ∙ ap (sent ++◌) tail in
      let missing : strstr b content_length_header ≡ ok none =
        ap (λ t. strstr t content_length_header) whole
        ∙ strstr-missing sent (replicate n 0) content_length_header plain refl no_length in
      rw (run, missing) (rw (in_buffer b front) stuck)
