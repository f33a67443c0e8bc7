-- ===== src/HttpTypes/Life.antt =====
-- types/http-types/http_types.c: the allocation and the release of a request. Whether each `calloc`
-- succeeds is an argument.
use orb_weaver.HttpTypes.{
  type_null, version_0_9, HeaderPointer, null_header, live, freed, HttpRequest,
  max_http_header_line_size, max_http_header_count,
}
use orb_weaver.Prelude.{
  zero, suc, ◌+◌, out_of_fuel, null_dereference, ◌>>=◌, ℕ, ◌*◌, ◌/◌, Bool, true, false, not, Option,
  none, some, List, [], ◌∷◌, Run, ok, fault, invalid_free, if◌then◌else◌, replicate,
}

pub record RequestMemory : Type 0 where
  pub request : Bool
  pub headers : Bool
  pub route : Bool

-- What `calloc` leaves: every field 0.
abbrev pub zero_request : HttpRequest
zero_request = record {
  http_method = type_null;
  http_protocol = version_0_9;
  http_headers = [];
  num_headers = 0;
  http_route_size = 0;
  http_headers_size = 0;
  http_body_size = 0;
  http_route = none;
  http_body = none;
  http_host = none;
}

-- The pointers in `MAX_HTTP_HEADER_COUNT` headers' worth of zeros.
abbrev pub header_slots : ℕ
header_slots = max_http_header_count * 40 / 8

-- The result, and `*http_request_instance`; `none` is `NULL`.
unfoldable pub allocate_http_request : RequestMemory → Bool × Option HttpRequest
allocate_http_request memory =
    if not memory.request
    then (false, none)
    else if not memory.headers
    then (false, some zero_request)
    else (let with_headers : HttpRequest = record zero_request {
      http_headers = replicate header_slots null_header;
    } in
        if not memory.route then (false, some with_headers) else (
          true,
          some (record with_headers {
            http_route = some (replicate (8 * max_http_header_line_size) 0);
          }),
        ))

-- `p != NULL`
abbrev pub is_given : {A : Type 0} → Option A → Bool
is_given none = false
is_given (some _) = true

-- `if(p != NULL) free(p); if(p != NULL) function_result = false;` on a block that was allocated:
-- `free` does not change `p`.
abbrev release : {A : Type 0} → Option A → Bool → Bool
release p function_result = if is_given p then false else function_result

-- `free(header_cursor)`, where the cursor is `moved` headers behind the pointer: `free` takes only the
-- address that `calloc` gave, once, or `NULL`.
unfoldable pub free_header : HeaderPointer → ℕ → Run HeaderPointer
free_header null_header zero = ok null_header
free_header (live header) zero = ok freed
free_header _ _ = fault invalid_free

-- `header_cursor != NULL`
abbrev pub cursor_given : HeaderPointer → ℕ → Bool
cursor_given null_header zero = false
cursor_given _ _ = true

-- The loop over the headers: `++header_cursor` moves it by one header, from the first header into what
-- stands in memory behind that header. The result is `function_result`.
unfoldable pub headers_cursor : ℕ → HeaderPointer → ℕ → Bool → Run Bool
unfolding free_header
headers_cursor zero header moved function_result = fault out_of_fuel
headers_cursor (suc fuel) header moved function_result =
    if not (cursor_given header moved) then ok function_result else do
      header' ← free_header header moved
      headers_cursor fuel header' (moved + 1)
          (if cursor_given header' moved then false else function_result)

-- `*http_headers`, and the loop; `free` takes no cursor that was moved, so two rounds are enough.
unfoldable pub free_headers : List HeaderPointer → Bool → Run Bool
unfolding headers_cursor
free_headers [] function_result = fault null_dereference
free_headers (header ∷ headers) function_result = headers_cursor 2 header 0 function_result

-- `http_headers` points to a block unless it is empty; that block and the request were allocated.
unfoldable pub free_http_request : Option HttpRequest → Run Bool
unfolding free_headers
free_http_request none = ok false
free_http_request (some r) = do
  function_result ← free_headers r.http_headers (release r.http_route true)
  ok (release (some r) (release (some r.http_headers) function_result))
