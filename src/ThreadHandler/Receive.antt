-- ===== src/ThreadHandler/Receive.antt =====
-- `_get_request_headers`, `_get_request_contents` and `_process_request`. What the `n`-th call of
-- `recv` stores, asked for a number of bytes, is an argument; so is what `strtoul` makes of the text
-- behind the name of a content length. A buffer that was freed is `none`.
pub mod Append
pub mod Headers
pub mod Contents
pub mod Chunks
pub mod Parsed
use orb_weaver.ConnectionHandler.{receive_data}
use orb_weaver.HttpHandler.Metadata.{Allocations}
use orb_weaver.HttpHandler.Process.{process_http_request}
use orb_weaver.HttpTypes.Life.{RequestMemory}
use orb_weaver.HttpTypes.{max_http_header_line_size}
use orb_weaver.Memory.{Bytes, codes, copy, write_at}
use orb_weaver.Prelude.{
  ℕ, zero, suc, ◌+◌, ◌-◌, Bool, true, false, ◌&&◌, ◌||◌, not, Option, none, some, List, [], ◌∷◌,
  Run, ok, fault, out_of_bounds, out_of_fuel, ◌>>=◌, ltb, leb, ◌==◌, if◌then◌else◌, take, drop,
  replicate,
}

abbrev pub receive_buffer_size : ℕ
receive_buffer_size = 32768

abbrev pub end_of_buffer : Bytes
end_of_buffer = b'\r' ∷ b'\n' ∷ b'\r' ∷ b'\n' ∷ []

abbrev pub content_length_header : Bytes
content_length_header = codes "Content-Length:"

abbrev pub content_length_header_length : ℕ
content_length_header_length = 15

abbrev pub Recv : Type 0
Recv = ℕ → ℕ → Option Bytes

-- `memmem(…) != NULL`
unfoldable pub begins : Bytes → Bytes → Bool
begins [] big = true
begins (c ∷ little) [] = false
begins (c ∷ little) (d ∷ big) = (c == d) && begins little big

unfoldable pub memmem : Bytes → Bytes → Bool
memmem [] little = begins little []
memmem (c ∷ big) little = begins little (c ∷ big) || memmem big little

-- `strstr`: the text from the first place where it begins with `little`, up to the first 0.
unfoldable pub strstr : Bytes → Bytes → Run (Option Bytes)
unfolding begins
strstr [] little = fault out_of_bounds
strstr (c ∷ big) little =
    let rest = strstr big little in
    if c == 0 then ok none else if begins little (c ∷ big) then ok (some (c ∷ big)) else rest

-- The result, the buffer, `*total_bytes_read`, and how many calls of `recv` were made.
pub record Received : Type 0 where
  pub result : Bool
  pub buffer : Option Bytes
  pub total_bytes_read : ℕ
  pub calls : ℕ

abbrev pub succeeded : Bytes → ℕ → ℕ → Received
succeeded buffer total calls = record {
  result = true;
  buffer = some buffer;
  total_bytes_read = total;
  calls = calls;
}

abbrev pub failed : ℕ → ℕ → Received
failed total calls = record {
  result = false;
  buffer = none;
  total_bytes_read = total;
  calls = calls;
}

-- `memcpy(buffer + total, source, n)`
unfoldable pub append_bytes : Bytes → ℕ → Bytes → ℕ → Run Bytes
append_bytes buffer total source n = do bytes ← copy source n; write_at buffer total bytes

-- The loop of `_get_request_headers`.
unfoldable pub headers_loop : Recv → ℕ → Bytes → ℕ → ℕ → Run Received
headers_loop recv zero buffer total calls = fault out_of_fuel
headers_loop recv (suc fuel) buffer total calls =
    if memmem (take total buffer) end_of_buffer then ok (succeeded buffer total calls) else do
      (got, header_buffer, num_bytes_read) ←
          receive_data (recv calls (max_http_header_line_size - 1))
            (replicate max_http_header_line_size 0) 0
      if not got
          then ok (failed total (calls + 1))
          else if ltb max_http_header_line_size (total + num_bytes_read)
          then ok (failed total (calls + 1))
          else if ltb num_bytes_read 1
          then ok (failed total (calls + 1))
          else do
            buffer' ← append_bytes buffer total header_buffer num_bytes_read
            headers_loop recv fuel buffer' (total + num_bytes_read) (calls + 1)

-- Each round adds a byte, and the total stays within `MAX_HTTP_HEADER_LINE_SIZE`.
unfoldable pub get_request_headers : Recv → Bytes → ℕ → Run Received
get_request_headers recv buffer total =
    headers_loop recv (max_http_header_line_size + 1) buffer total 0

-- The loop of `_get_request_contents`. `total_bytes_read += num_bytes_read` moves the pointer: it is
-- `offset` ints behind the caller's variable, and is read there.
unfoldable pub contents_loop : Recv → ℕ → Bytes → ℕ → ℕ → ℕ → ℕ → ℕ → ℕ → Run Received
contents_loop recv zero buffer total offset size content_length body_bytes_read calls =
    fault out_of_fuel
contents_loop recv (suc fuel) buffer total offset size content_length body_bytes_read calls =
    if not (ltb body_bytes_read content_length)
    then ok (succeeded buffer total calls)
    else (let left = content_length - body_bytes_read in
        let size' = if ltb left size then left else size in
        do
          (got, body_buffer, num_bytes_read) ←
              receive_data (recv calls size') (replicate receive_buffer_size 0) 0
          if not got
              then ok (failed total (calls + 1))
              else if ltb num_bytes_read 1
              then ok (succeeded buffer total (calls + 1))
              else if not (offset == 0)
              then fault out_of_bounds
              else do
                buffer' ← append_bytes buffer total body_buffer num_bytes_read
                contents_loop recv fuel buffer' total (offset + num_bytes_read) size' content_length
                    (body_bytes_read + num_bytes_read) (calls + 1))

-- `content_length` is what `strtoul` returns, or `none` where it sets `errno`.
unfoldable pub get_request_contents : Recv → Option ℕ → Bytes → ℕ → ℕ → Run Received
get_request_contents recv none buffer total calls = ok (failed total calls)
get_request_contents recv (some content_length) buffer total calls =
    if ltb receive_buffer_size content_length
    then ok (failed total calls)
    else if content_length == 0
    then ok (succeeded buffer total calls)
    else contents_loop recv (content_length + 1) buffer total 0 receive_buffer_size content_length 0
        calls

-- The header and the body; `strtoul` says what the call of it returns, or `none` where it sets `errno`.
unfoldable pub receive_request : Recv → (Bytes → Option ℕ) → Run Received
unfolding strstr
receive_request recv strtoul = do
  headers ← get_request_headers recv (replicate receive_buffer_size 0) 0
  if not headers.result then ok headers else elim headers.buffer [
    | none ↦ ok headers
    | some buffer ↦ do
      found ← strstr buffer content_length_header
      elim found [
        | none ↦ ok headers
        | some value ↦
            get_request_contents recv (strtoul (drop content_length_header_length value)) buffer
              headers.total_bytes_read headers.calls
      ]
  ]

-- Which of the two allocations of `_process_request` succeed.
pub record BufferMemory : Type 0 where
  pub buffer : Bool
  pub response : Bool

unfoldable pub process_request :
    Recv
    → (Bytes → Option ℕ)
    → BufferMemory
    → RequestMemory
    → (ℕ → Allocations)
    → (ℕ → Bytes)
    → Bool
    → Run Bool
process_request recv strtoul buffers request_memory memory garbage list_memory =
    if not buffers.buffer then ok false else do
      received ← receive_request recv strtoul
      if not received.result
          then ok false
          else if not buffers.response
          then ok false
          else process_http_request request_memory memory garbage list_memory received.buffer
              received.total_bytes_read true
