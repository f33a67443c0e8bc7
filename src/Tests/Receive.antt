-- ===== src/Tests/Receive.antt =====
-- A request in two chunks.
use orb_weaver.HttpHandler.Metadata.Headers.{plenty}
use orb_weaver.HttpHandler.Metadata.{get_http_metadata}
use orb_weaver.HttpHandler.HeaderLine.Accept.{parsed}
use orb_weaver.HttpHandler.Process.{all_memory}
use orb_weaver.HttpHandler.RequestLine.Ends.{get, http_1_1}
use orb_weaver.HttpTypes.{type_get, version_1_1, live}
use orb_weaver.Memory.Text.{equal}
use orb_weaver.Memory.{Bytes, codes, c_string}
use orb_weaver.Prelude.{
  ℕ, zero, suc, ◌<◌, ◌≡◌, refl, true, false, none, some, [], ◌∷◌, ◌++◌, arith, ok, fault,
  invalid_free, leb, if◌then◌else◌, length, replicate,
}
use orb_weaver.Tests.Http.{request, message}
use orb_weaver.ThreadHandler.Receive.Chunks.{Delivers}
use orb_weaver.ThreadHandler.Receive.Headers.{stream, ended, Bounded}
use orb_weaver.ThreadHandler.Receive.Parsed.{
  get_request_headers-received, process_request-invalid_free,
}
use orb_weaver.ThreadHandler.Receive.{
  Recv, receive_buffer_size, begins, memmem, succeeded, get_request_headers, process_request,
}

abbrev two_chunks : Recv
two_chunks zero size = if leb 21 size then some (codes "GET /ab HTTP/1.1\r\nHos") else none
two_chunks (suc zero) size =
    if leb 21 size then some (codes "t: orb\r\nAccept: x\r\n\r\n") else none
two_chunks (suc (suc n)) size = none

two_chunks-Bounded : Bounded two_chunks
two_chunks-Bounded zero size = ground arith
two_chunks-Bounded (suc zero) size = ground arith
two_chunks-Bounded (suc (suc n)) size = ground arith

two_chunks-Delivers : Delivers two_chunks 2 message
unfolding memmem begins
two_chunks-Delivers = (refl, λ j lt. each j lt)
  where
    each :
        (j : ℕ)
        → j < 2
        → (ended two_chunks j ≡ false)
          × (length (stream two_chunks j) < length (stream two_chunks (suc j)))
    each zero lt = (refl, omega arith)
    each (suc zero) lt = (refl, omega arith)
    each (suc (suc j)) lt = absurd (omega arith)

get_request_headers-received_example :
    (b : Bytes) × (get_request_headers two_chunks (replicate receive_buffer_size 0) 0
      ≡ ok (succeeded b 42 2))
    × (get_http_metadata (λ _. plenty) (λ n. replicate n 0) true (some b) 42 (some request)
        ≡ ok (
          true,
          some (record request {
            http_method = type_get;
            http_protocol = version_1_1;
            http_route = some (codes "/ab" ++ replicate 13 0);
            http_route_size = 3;
            http_host = some (c_string "orb");
            num_headers = 2;
            http_headers_size = 16;
            http_headers =
                live (parsed (codes "Host") (codes "orb"))
                ∷ live (parsed (codes "Accept") (codes "x"))
                ∷ [];
          }),
        ))
unfolding equal
get_request_headers-received_example =
    get_request_headers-received get (codes "ab") http_1_1 (codes "Host", codes "orb")
      ((codes "Accept", codes "x") ∷ []) (λ n. replicate n 0) refl refl (omega arith) refl refl
      (refl, refl, omega arith, (refl, refl, omega arith, tt)) (omega arith) two_chunks 2 request
      (replicate 16 0) (c_string "orb") refl (omega arith) two_chunks-Bounded two_chunks-Delivers
      (omega arith) refl

process_request-invalid_free_example :
    process_request two_chunks
      (λ _. some 0)
      (record { buffer = true; response = true })
      all_memory
      (λ _. plenty)
      (λ n. replicate n 0)
      true
    ≡ fault invalid_free
unfolding equal memmem begins
process_request-invalid_free_example =
    process_request-invalid_free get (codes "ab") http_1_1 (codes "Host", codes "orb")
      ((codes "Accept", codes "x") ∷ []) (λ n. replicate n 0) refl refl (omega arith) refl refl
      (refl, refl, omega arith, (refl, refl, omega arith, tt)) (omega arith) two_chunks
      (λ _. some 0) 2 (c_string "orb") two_chunks-Bounded two_chunks-Delivers (omega arith) refl
      refl refl
