-- ===== src/HttpHandler/Metadata.antt =====
-- `_get_http_metadata`, `_route_http_request` and the parts of the loop. `raw_cursor` is the
-- message from the cursor on. What the allocations of a line return is an argument, by the number
-- of the line; so is what the uninitialised `line_partition` of a given size holds.
pub mod Headers
pub mod Lines
pub mod Request
pub mod Message
use orb_weaver.HttpHandler.HeaderLine.{HeaderResult, validate_http_header, strndup}
use orb_weaver.HttpHandler.RequestLine.{validate_http_metadata}
use orb_weaver.HttpTypes.{
  HttpRequestHeader, HeaderPointer, null_header, live, freed, HttpRequest,
  max_http_header_line_size, max_http_header_count, max_http_header_total_size,
}
use orb_weaver.Memory.{Bytes, read, write}
use orb_weaver.Prelude.{
  ℕ, zero, suc, ◌+◌, ◌*◌, Bool, true, false, ◌||◌, ◌&&◌, not, Option, none, some, List, [], ◌∷◌,
  ◌++◌, Run, ok, fault, null_dereference, out_of_bounds, use_after_free, ◌>>=◌, ltb, leb, ◌==◌,
  if◌then◌else◌, length, replicate,
}

-- Which allocations for a line succeed.
pub record Allocations : Type 0 where
  pub header : Bool
  pub key : Bool
  pub value : Bool
  pub host : Bool

-- The local variables of the loop, with the request.
pub record Parse : Type 0 where
  pub header_buffer : Bytes
  pub num_parsed : ℕ
  pub line_increment : ℕ
  pub validated_headers : List HeaderPointer
  pub request : HttpRequest

-- The copy of the buffer into `header_line`, with the rounds left, and `copy_counter`.
unfoldable pub copy_line : ℕ → Bytes → Run (Bytes × ℕ)
copy_line zero header_buffer = ok ([], 0)
copy_line (suc rounds) [] = fault out_of_bounds
copy_line (suc rounds) (c ∷ header_buffer) =
    let rest = copy_line rounds header_buffer in
    if c == 0
    then ok (0 ∷ [], 0)
    else do (line, copy_counter) ← rest; ok (c ∷ line, copy_counter + 1)

-- `calloc(1, sizeof(http_request_header))`
abbrev pub zero_header : HttpRequestHeader
zero_header = record { key_size = 0; value_size = 0; key = none; value = none; valid = false }

unfoldable pub set_host : Bool → HttpRequestHeader → HttpRequest → Run HttpRequest
set_host memory header r = elim header.value [
  | none ↦ fault null_dereference
  | some value ↦ ok (record r { http_host = strndup memory value header.value_size })
]

-- The header pointer and the request behind `_validate_http_header`: a refused header is freed, and
-- read again where `host_found` is set.
unfoldable pub keep_header : Bool → HeaderResult → HttpRequest → Run (HeaderPointer × HttpRequest)
keep_header memory result r =
    if not result.valid
    then (if result.host_found then fault use_after_free else ok (freed, r))
    else elim result.header [
      | none ↦ fault null_dereference
      | some header ↦
          if result.host_found && header.valid
          then (do r' ← set_host memory header r; ok (live header, r'))
          else ok (live header, r)
    ]

unfoldable pub parse_header :
    Allocations → Bytes → ℕ → HttpRequest → Run (HeaderPointer × HttpRequest)
parse_header memory header_line num_parsed r = if not memory.header then ok (null_header, r) else do
  result ←
      validate_http_header memory.key memory.value (some header_line) num_parsed false
        (some zero_header)
  keep_header memory.host result r

-- `validated_headers[validated_cursor] = raw_header`
unfoldable pub add_header : List HeaderPointer → HeaderPointer → Run (List HeaderPointer)
add_header headers header =
    if leb max_http_header_count (length headers)
    then fault out_of_bounds
    else ok (headers ++ header ∷ [])

-- A line that ended: the first one is the request line. `none` is the return `false`.
unfoldable pub end_line : (ℕ → Allocations) → (ℕ → Bytes) → Bytes → Parse → Run (Bool × Parse)
end_line memory garbage header_line s =
    if ltb s.line_increment 1
    then (do
      (valid, r) ←
          validate_http_metadata (garbage s.num_parsed) (some header_line) s.num_parsed s.request
      ok (valid, record s { request = r }))
    else do
      (header, r) ← parse_header (memory s.line_increment) header_line s.num_parsed s.request
      headers ← add_header s.validated_headers header
      ok (true, record s { validated_headers = headers; request = r })

-- Whether the empty line follows; `tail` begins behind the carriage return.
unfoldable pub last_line : Bytes → Run Bool
last_line tail = do
  c ← read tail 1
  if not (c == b'\r') then ok false else do d ← read tail 2; ok (d == b'\n')

abbrev pub next_line : Parse → Parse
next_line s = record s {
  header_buffer = replicate max_http_header_line_size 0;
  num_parsed = 0;
  line_increment = s.line_increment + 1;
}

-- What a carriage return leads to: the function returns, the loop ends, or the next line begins.
pub data LineEnd : Type 0 where
  refused done again : Parse → LineEnd

unfoldable pub carriage_return : (ℕ → Allocations) → (ℕ → Bytes) → Bytes → Parse → Run LineEnd
carriage_return memory garbage tail s = do
  (line, copy_counter) ← copy_line (s.num_parsed + 1) s.header_buffer
  if not (copy_counter == s.num_parsed) then ok (refused s) else do
    c ← read tail 0
    if not (c == b'\n') then ok (refused s) else do
      (valid, s') ← end_line memory garbage line s
      if not valid
          then ok (refused s')
          else do last ← last_line tail; if last then ok (done s') else ok (again (next_line s'))

-- The loop; `false` where the function returned from inside of it.
unfoldable pub raw_loop : (ℕ → Allocations) → (ℕ → Bytes) → Bytes → Parse → Run (Bool × Parse)
raw_loop memory garbage [] s =
    if s.num_parsed == max_http_header_line_size then ok (false, s) else fault out_of_bounds
raw_loop memory garbage (c ∷ []) s =
    if s.num_parsed == max_http_header_line_size
    then ok (false, s)
    else if c == b'\r'
    then (do
      ended ← carriage_return memory garbage [] s
      elim ended [
        | refused s' ↦ ok (false, s')
        | done s' ↦ fault out_of_bounds
        | again s' ↦ fault out_of_bounds
      ])
    else do
      buffer ← write s.header_buffer s.num_parsed c
      raw_loop memory garbage []
          (record s { header_buffer = buffer; num_parsed = s.num_parsed + 1 })
raw_loop memory garbage (c ∷ d ∷ raw_cursor) s =
    if s.num_parsed == max_http_header_line_size
    then ok (false, s)
    else if c == b'\r'
    then (do
      ended ← carriage_return memory garbage (d ∷ raw_cursor) s
      elim ended [
        | refused s' ↦ ok (false, s')
        | done s' ↦ ok (true, s')
        | again s' ↦ raw_loop memory garbage raw_cursor s'
      ])
    else do
      buffer ← write s.header_buffer s.num_parsed c
      raw_loop memory garbage (d ∷ raw_cursor)
          (record s { header_buffer = buffer; num_parsed = s.num_parsed + 1 })

-- Behind the loop; `list_memory` says whether `malloc` succeeds.
unfoldable pub persist_headers : Bool → Parse → Run (Bool × HttpRequest)
persist_headers list_memory s = elim s.request.http_host [
  | none ↦ ok (false, s.request)
  | some _ ↦
      let n = length s.validated_headers in
      if not list_memory && not (n == 0)
      then fault null_dereference
      else ok (
        true,
        record (s.request) {
          num_headers = n;
          http_headers_size = n * 8;
          http_headers = s.validated_headers;
        },
      )
]

-- The result, and the request that is left; a `NULL` message or request is refused.
unfoldable pub get_http_metadata :
    (ℕ → Allocations)
    → (ℕ → Bytes)
    → Bool
    → Option Bytes
    → ℕ
    → Option HttpRequest
    → Run (Bool × Option HttpRequest)
get_http_metadata memory garbage list_memory (some raw) raw_size (some r) =
    if raw_size == 0 || ltb max_http_header_total_size raw_size then ok (false, some r) else do
      (parsed, s) ← raw_loop memory garbage raw (record {
        header_buffer = replicate max_http_header_line_size 0;
        num_parsed = 0;
        line_increment = 0;
        validated_headers = [];
        request = r;
      })
      if not parsed
          then ok (false, some s.request)
          else do (result, r') ← persist_headers list_memory s; ok (result, some r')
get_http_metadata memory garbage list_memory raw raw_size r = ok (false, r)

unfoldable pub route_http_request : Option Bytes → ℕ → Option HttpRequest → Bool
route_http_request (some message) message_size (some r) = not (message_size == 0)
route_http_request message message_size r = false
