-- ===== src/HttpHandler/Process.antt =====
-- `process_http_request`. `response` says whether the address of the response was given.
use mathlib.Core.Path.{subst}
use orb_weaver.HttpHandler.Metadata.Headers.{plenty}
use orb_weaver.HttpHandler.Metadata.Lines.{is_line}
use orb_weaver.HttpHandler.Metadata.Message.{get_http_metadata-received}
use orb_weaver.HttpHandler.Metadata.Request.{Header, WellFormed, render, with_hosts}
use orb_weaver.HttpHandler.Metadata.{Allocations, get_http_metadata, route_http_request}
use orb_weaver.HttpHandler.RequestLine.Accept.{request_line, accepted}
use orb_weaver.HttpHandler.RequestLine.Ends.{Method, method_name, Protocol, protocol_name}
use orb_weaver.HttpHandler.RequestLine.Words.{is_word}
use orb_weaver.HttpTypes.Life.{
  RequestMemory, zero_request, header_slots, allocate_http_request, free_header, headers_cursor,
  free_headers, free_http_request,
}
use orb_weaver.HttpTypes.{
  HttpRequest, null_header, max_http_header_line_size, max_http_header_count,
  max_http_header_total_size,
}
use orb_weaver.Memory.{Bytes}
use orb_weaver.Prelude.{
  ℕ, ◌+◌, ◌*◌, ◌≤◌, ◌<◌, ◌≡◌, ◌≢◌, refl, Bool, true, false, not, Option, none, some, List, ◌∷◌,
  ◌++◌, arith, Run, ok, fault, Ensures, Ensures-bind, Ensures-if, invalid_free, ◌>>=◌,
  if◌then◌else◌, ◌==◌, ==_ne, length, length-append, length-replicate, get_or, replicate,
}

unfoldable pub process_http_request :
    RequestMemory → (ℕ → Allocations) → (ℕ → Bytes) → Bool → Option Bytes → ℕ → Bool → Run Bool
process_http_request request_memory memory garbage list_memory none message_size response = ok false
process_http_request request_memory memory garbage list_memory (some message) message_size
      response =
    if not response
    then ok false
    else (let (allocated, parsing_result) = allocate_http_request request_memory in
        if not allocated then ok false else do
          (parsed, request) ←
              get_http_metadata memory garbage list_memory (some message) message_size
                parsing_result
          if not parsed
              then ok false
              else if not (route_http_request (some message) message_size request)
              then ok false
              else free_http_request request)

abbrev pub IsFalse : Bool → Type 0
IsFalse b = b ≡ false

free_http_request-IsFalse : (r : Option HttpRequest) → Ensures IsFalse (free_http_request r)
unfolding free_http_request
free_http_request-IsFalse none = refl
free_http_request-IsFalse (some r) =
    Ensures-bind IsFalse (free_headers r.http_headers _) _ (λ function_result _. refl)

process_http_request-Ensures :
    (request_memory : RequestMemory) (memory : ℕ → Allocations) (garbage : ℕ → Bytes)
    (list_memory : Bool) (message : Option Bytes) (message_size : ℕ) (response : Bool)
    → Ensures IsFalse (
        process_http_request request_memory memory garbage list_memory message message_size
          response)
unfolding process_http_request
process_http_request-Ensures request_memory memory garbage list_memory none message_size response =
    refl
process_http_request-Ensures request_memory memory garbage list_memory (some message) message_size
      response =
    Ensures-if IsFalse (not response) _ _ (λ _. refl)
      (λ _.
        Ensures-if IsFalse (not (allocate_http_request request_memory).0) _ _ (λ _. refl)
          (λ _.
            Ensures-bind IsFalse
              (get_http_metadata memory garbage list_memory (some message) message_size
                (allocate_http_request request_memory).1)
              _
              (λ x _.
                Ensures-if IsFalse (not x.0) _ _ (λ _. refl)
                  (λ _.
                    Ensures-if IsFalse (not (route_http_request (some message) message_size x.1)) _
                      _ (λ _. refl) (λ _. free_http_request-IsFalse x.1)))))

-- No message is ever processed: whatever it is, and whatever the allocations return,
-- `process_http_request` does not return `true`.
pub process_http_request-ne-true :
    (request_memory : RequestMemory) (memory : ℕ → Allocations) (garbage : ℕ → Bytes)
    (list_memory : Bool) (message : Option Bytes) (message_size : ℕ) (response : Bool)
    → process_http_request request_memory memory garbage list_memory message message_size response
      ≢ ok true
process_http_request-ne-true request_memory memory garbage list_memory message message_size response
      returned =
    let kept : true ≡ false = subst (Ensures IsFalse) returned (
      process_http_request-Ensures request_memory memory garbage list_memory message message_size
        response) in
    cc

abbrev pub all_memory : RequestMemory
all_memory = record { request = true; headers = true; route = true }

abbrev pub buffer : Bytes
buffer = replicate (8 * max_http_header_line_size) 0

-- The request that `allocate_http_request` makes.
abbrev pub fresh : HttpRequest
fresh = record zero_request {
  http_headers = replicate header_slots null_header;
  http_route = some buffer;
}

allocate_http_request-fresh : allocate_http_request all_memory ≡ (true, some fresh)
unfolding allocate_http_request
allocate_http_request-fresh = refl

module _ (m : Method) (path : Bytes) (p : Protocol) (h : Header) (hs : List Header)
    (garbage : ℕ → Bytes) (word : is_word path ≡ true) (line : is_line path ≡ true)
    (short : length (request_line m path p) < max_http_header_line_size)
    (width : length (garbage (length (request_line m path p))) ≡ length (request_line m path p))
    (zeroed : get_or (garbage (length (request_line m path p))) (length (method_name m)) 1 ≡ 0)
    (formed : WellFormed (h ∷ hs)) (few : length (h ∷ hs) ≤ max_http_header_count)
    (rest : Bytes) where
  -- With all memory, a well-formed message of at most 819,200 bytes that names a host is parsed, and
  -- then `free_http_request` passes to `free` an address that was not allocated.
  pub process_http_request-invalid_free :
      (message_size : ℕ) (host : Bytes)
      → 0 < message_size
      → message_size ≤ max_http_header_total_size
      → (with_hosts (h ∷ hs) (accepted m path p buffer fresh)).http_host ≡ some host
      → process_http_request all_memory
          (λ _. plenty)
          garbage
          true
          (some (request_line m path p ++ b'\r' ∷ b'\n' ∷ render (h ∷ hs) rest))
          message_size
          true
        ≡ fault invalid_free
  unfolding process_http_request route_http_request free_http_request free_headers headers_cursor
      free_header
  process_http_request-invalid_free message_size host pos max found =
      let room : length path + 2 ≤ length buffer = omega (
        arith,
        length-replicate {A = ℕ} (8 * max_http_header_line_size) 0,
        length-append (method_name m) (b' ' ∷ b'/' ∷ (path ++ b' ' ∷ protocol_name p)),
        length-append path (b' ' ∷ protocol_name p),
      ) in
      let given : (message_size == 0) ≡ false = ==_ne message_size 0 (λ e. omega arith) in
      rw (
        allocate_http_request-fresh,
        get_http_metadata-received m path p h hs garbage fresh word line short width zeroed formed
            few rest buffer refl room message_size host pos max found,
        given,
      )
