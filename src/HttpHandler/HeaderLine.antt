-- ===== src/HttpHandler/HeaderLine.antt =====
-- `_validate_http_header` and `_clean_header`. `header_cursor` is the header from the cursor on.
-- The two results of `strndup` are NULL where the arguments `key_memory` and `value_memory` say so.
pub mod Fields
pub mod Accept
pub mod Refuse
use orb_weaver.HttpTypes.{HttpRequestHeader}
use orb_weaver.Memory.Text.{text}
use orb_weaver.Memory.{Bytes, c_string, read, write, strcmp_equal}
use orb_weaver.Prelude.{
  ℕ, zero, suc, ◌+◌, Bool, true, false, ◌||◌, ◌&&◌, not, Option, none, some, List, [], ◌∷◌, ◌++◌,
  Run, ok, fault, null_dereference, out_of_bounds, ◌>>=◌, ltb, ◌==◌, if◌then◌else◌, take, replicate,
}

pub data HeaderStatus : Type 0 where
  is_key is_assigning is_value : HeaderStatus

-- The local variables of the loop, and `*host_found`.
pub record HeaderScan : Type 0 where
  pub flag : HeaderStatus
  pub key_cache : Bytes
  pub key_cache_size : ℕ
  pub value_cache : Bytes
  pub value_cache_size : ℕ
  pub total_parsed : ℕ
  pub host_found : Bool

abbrev pub in_key : HeaderScan → Bool
in_key s = elim s.flag [ is_key ↦ true | is_assigning ↦ false | is_value ↦ false ]

abbrev pub in_value : HeaderScan → Bool
in_value s = elim s.flag [ is_key ↦ false | is_assigning ↦ false | is_value ↦ true ]

-- `!strcmp(key_cache, HOST_HEADER_KEY)`, as the new `*host_found`
unfoldable pub end_key : HeaderScan → Run HeaderScan
end_key s = do
  host ← strcmp_equal s.key_cache (c_string "Host")
  ok (record s { host_found = host || s.host_found })

-- One byte goes to the cache that `flag` names.
unfoldable pub cache_byte : ℕ → HeaderScan → Run HeaderScan
cache_byte c s = elim s.flag [
  | is_key ↦ do
    cache ← write s.key_cache s.key_cache_size c
    ok (record s { key_cache = cache; key_cache_size = s.key_cache_size + 1 })
  | is_assigning ↦ ok s
  | is_value ↦ do
    cache ← write s.value_cache s.value_cache_size c
    ok (record s { value_cache = cache; value_cache_size = s.value_cache_size + 1 })
]

-- The test of a carriage return; `header_cursor` begins behind it.
unfoldable pub line_break : HeaderScan → Bytes → Run Bool
line_break s header_cursor =
    if not (in_value s) then ok false else do c ← read header_cursor 0; ok (c == b'\n')

abbrev pub skip_space : HeaderScan → HeaderScan
skip_space s = record s { flag = is_value; total_parsed = s.total_parsed + 2 }

abbrev pub next_byte : HeaderScan → HeaderScan
next_byte s = record s { total_parsed = s.total_parsed + 1 }

-- The loop. The result says whether the header is well formed.
unfoldable pub header_loop : Bytes → ℕ → HeaderScan → Run (Bool × HeaderScan)
header_loop [] header_size s =
    if ltb header_size s.total_parsed then ok (true, s) else fault out_of_bounds
header_loop (c ∷ []) header_size s =
    if ltb header_size s.total_parsed
    then ok (true, s)
    else if in_key s && (c == b':')
    then (do s' ← end_key s; fault out_of_bounds)
    else do
      s' ← cache_byte c s
      fine ← (if c == b'\r' then line_break s' [] else ok true)
      let rest = header_loop [] header_size (next_byte s')
      if fine then rest else ok (false, s')
header_loop (c ∷ d ∷ header_cursor) header_size s =
    if ltb header_size s.total_parsed
    then ok (true, s)
    else if in_key s && (c == b':')
    then (do
      s' ← end_key s
      let rest = header_loop header_cursor header_size (skip_space s')
      if d == b' ' then rest else ok (false, s'))
    else do
      s' ← cache_byte c s
      fine ← (if c == b'\r' then line_break s' (d ∷ header_cursor) else ok true)
      let rest = header_loop (d ∷ header_cursor) header_size (next_byte s')
      if fine then rest else ok (false, s')

-- `strndup`, of which the code relies on the copy of the text, cut at `n` bytes.
abbrev pub strndup : Bool → Bytes → ℕ → Option Bytes
strndup memory s n = if memory then some (text (take n s) ++ 0 ∷ []) else none

-- Both blocks are freed; their pointers stay, so the result is `false` unless both are NULL.
unfoldable pub clean_header : HttpRequestHeader → Bool × HttpRequestHeader
clean_header h = (
  elim h.key [ some _ ↦ false | none ↦ elim h.value [ some _ ↦ false | none ↦ true ] ],
  record h { key_size = 0; value_size = 0; valid = false },
)

abbrev pub is_some : Option Bytes → Bool
is_some none = false
is_some (some _) = true

-- The end of `_validate_http_header`.
unfoldable pub persist_header :
    (key_memory value_memory : Bool) → HeaderScan → HttpRequestHeader → Bool × HttpRequestHeader
persist_header key_memory value_memory s result =
    let stored = record result {
      key_size = s.key_cache_size;
      value_size = s.value_cache_size;
      key = strndup key_memory s.key_cache s.key_cache_size;
      value = strndup value_memory s.value_cache s.value_cache_size;
    } in
    if is_some stored.key && is_some stored.value
    then (true, record stored { valid = true })
    else (false, (clean_header stored).1)

-- What `_validate_http_header` returns, and leaves in `*host_found` and `**result_header`.
pub record HeaderResult : Type 0 where
  pub valid : Bool
  pub host_found : Bool
  pub header : Option HttpRequestHeader

unfoldable pub finish_header :
    (key_memory value_memory : Bool) → Bool × HeaderScan → HttpRequestHeader → HeaderResult
finish_header key_memory value_memory (false, s) result = record {
  valid = false;
  host_found = s.host_found;
  header = some result;
}
finish_header key_memory value_memory (true, s) result =
    let (done, stored) = persist_header key_memory value_memory s result in
    record { valid = done; host_found = s.host_found; header = some stored }

unfoldable pub validate_http_header :
    (key_memory value_memory : Bool)
    → Option Bytes
    → ℕ
    → Bool
    → Option HttpRequestHeader
    → Run HeaderResult
validate_http_header key_memory value_memory (some header) header_size host_found (some result) = do
  scanned ← header_loop header header_size (record {
    flag = is_key;
    key_cache = replicate header_size 0;
    key_cache_size = 0;
    value_cache = replicate header_size 0;
    value_cache_size = 0;
    total_parsed = 0;
    host_found = false;
  })
  ok (finish_header key_memory value_memory scanned result)
validate_http_header key_memory value_memory header header_size host_found result =
    ok (record { valid = false; host_found = host_found; header = result })
