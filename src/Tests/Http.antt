-- ===== src/Tests/Http.antt =====
-- Request lines, header lines and a whole request.
use orb_weaver.HttpHandler.HeaderLine.Accept.{parsed}
use orb_weaver.HttpHandler.HeaderLine.Refuse.{validate_http_header-without_colon}
use orb_weaver.HttpHandler.HeaderLine.{validate_http_header}
use orb_weaver.HttpHandler.Metadata.Headers.{plenty, parse_header-use_after_free}
use orb_weaver.HttpHandler.Metadata.Message.{get_http_metadata-received}
use orb_weaver.HttpHandler.Metadata.{get_http_metadata, zero_header, parse_header}
use orb_weaver.HttpHandler.RequestLine.Accept.{
  validate_http_metadata-accepted, validate_http_metadata-uninitialised,
}
use orb_weaver.HttpHandler.RequestLine.Ends.{Method, method_name, get, post, put, delete, http_1_1}
use orb_weaver.HttpHandler.RequestLine.Unknown.{validate_http_metadata-unknown_method}
use orb_weaver.HttpHandler.RequestLine.{validate_http_metadata}
use orb_weaver.HttpTypes.{type_null, version_0_9, type_get, version_1_1, live, HttpRequest}
use orb_weaver.Memory.Text.{equal}
use orb_weaver.Memory.{Bytes, codes, c_string}
use orb_weaver.Prelude.{
  ◌≢◌, ◌∷◌, ◌≡◌, refl, true, false, none, some, [], ◌++◌, ok, fault, null_dereference,
  out_of_bounds, use_after_free, arith, replicate,
}

-- A fresh request, with a route buffer of 16 bytes.
abbrev pub request : HttpRequest
request = record {
  http_method = type_null;
  http_protocol = version_0_9;
  http_headers = [];
  num_headers = 0;
  http_route_size = 0;
  http_headers_size = 0;
  http_body_size = 0;
  http_route = some (replicate 16 0);
  http_body = none;
  http_host = none;
}

validate_http_metadata-accepted_example :
    validate_http_metadata (replicate 16 0) (some (c_string "GET /ab HTTP/1.1")) 16 request
    ≡ ok (
      true,
      record request {
        http_method = type_get;
        http_protocol = version_1_1;
        http_route = some (codes "/ab" ++ replicate 13 0);
        http_route_size = 3;
      },
    )
validate_http_metadata-accepted_example =
    validate_http_metadata-accepted get (codes "ab") http_1_1 (replicate 16 0) [] request refl refl
      (omega arith) (replicate 16 0) refl (omega arith) refl

validate_http_metadata-uninitialised_example :
    validate_http_metadata (replicate 16 7) (some (c_string "GET /ab HTTP/1.1")) 16 request
    ≡ fault null_dereference
validate_http_metadata-uninitialised_example =
    validate_http_metadata-uninitialised get (codes "ab") http_1_1 (replicate 16 7) [] request refl
      refl (omega arith) (ground arith)

validate_http_header-without_colon_example :
    validate_http_header true true (some (c_string "Host")) 4 false (some zero_header)
    ≡ fault out_of_bounds
validate_http_header-without_colon_example =
    validate_http_header-without_colon true true (codes "Host") [] false zero_header refl

parse_header-use_after_free_example :
    parse_header plenty (c_string "Host:orb") 8 request ≡ fault use_after_free
parse_header-use_after_free_example =
    parse_header-use_after_free plenty b'o' (codes "rb") [] request refl (ground arith)

abbrev pub message : Bytes
message = codes "GET /ab HTTP/1.1\r\nHost: orb\r\nAccept: x\r\n\r\n"

get_http_metadata-received_example :
    get_http_metadata (λ _. plenty) (λ n. replicate n 0) true (some message) 42 (some request)
    ≡ ok (
      true,
      some (record request {
        http_method = type_get;
        http_protocol = version_1_1;
        http_route = some (codes "/ab" ++ replicate 13 0);
        http_route_size = 3;
        http_host = some (c_string "orb");
        num_headers = 2;
        http_headers_size = 16;
        http_headers =
            live (parsed (codes "Host") (codes "orb"))
            ∷ live (parsed (codes "Accept") (codes "x"))
            ∷ [];
      }),
    )
unfolding equal
get_http_metadata-received_example =
    get_http_metadata-received get (codes "ab") http_1_1 (codes "Host", codes "orb")
      ((codes "Accept", codes "x") ∷ []) (λ n. replicate n 0) request refl refl (omega arith) refl
      refl (refl, refl, omega arith, (refl, refl, omega arith, tt)) (omega arith) []
      (replicate 16 0) refl (omega arith) 42 (c_string "orb") (omega arith) (omega arith) refl

patch_other : (m : Method) → codes "PATCH" ≢ method_name m
patch_other get = ground arith
patch_other post = ground arith
patch_other put = ground arith
patch_other delete = ground arith

validate_http_metadata-unknown_method_example :
    validate_http_metadata (replicate 16 0) (some (c_string "PATCH / HTTP/1.1")) 16 request
    ≡ fault null_dereference
validate_http_metadata-unknown_method_example =
    validate_http_metadata-unknown_method (codes "PATCH") (c_string "/ HTTP/1.1") (replicate 16 0)
      16 request refl (omega arith) patch_other (omega arith) (omega arith) refl refl
