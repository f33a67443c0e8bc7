-- ===== src/HttpHandler/RequestLine.antt =====
-- `_validate_http_metadata` and its tables. `line_cursor` is the line from the cursor on. The array
-- `line_partition` is not initialised, so what it holds at first is an argument.
pub mod Words
pub mod Ends
pub mod Accept
pub mod Unknown
use orb_weaver.HttpTypes.{
  HttpRequestMethod, type_null, type_get, type_post, type_put, type_delete, HttpRequestProtocol,
  version_0_9, version_1_0, version_1_1, HttpRequest, max_http_header_line_size,
}
use orb_weaver.Memory.{paste, Bytes, c_string, read, write, copy, strcmp_equal}
use orb_weaver.Prelude.{
  ℕ, zero, suc, ◌+◌, Bool, true, false, ◌||◌, not, Option, none, some, List, [], ◌∷◌, ◌++◌, Run, ok,
  fault, null_dereference, out_of_bounds, ◌>>=◌, ltb, ◌==◌, if◌then◌else◌, length, drop, replicate,
}

pub record MethodEntry : Type 0 where
  pub name : Option Bytes
  pub method : HttpRequestMethod

abbrev method_entry : Option Bytes → HttpRequestMethod → MethodEntry
method_entry n m = record { name = n; method = m }

abbrev pub method_entries : List MethodEntry
method_entries =
    method_entry (some (c_string "GET")) type_get
    ∷ method_entry (some (c_string "POST")) type_post
    ∷ method_entry (some (c_string "PUT")) type_put
    ∷ method_entry (some (c_string "DELETE")) type_delete
    ∷ method_entry none type_null
    ∷ []

-- `TYPE_COUNT` as a number
abbrev pub number_of_methods : ℕ
number_of_methods = 5

pub record ProtocolEntry : Type 0 where
  pub name : Bytes
  pub protocol : HttpRequestProtocol

abbrev protocol_entry : Bytes → HttpRequestProtocol → ProtocolEntry
protocol_entry n p = record { name = n; protocol = p }

-- Its length is `VERSION_COUNT`.
abbrev pub protocol_entries : List ProtocolEntry
protocol_entries =
    protocol_entry (c_string "") version_0_9
    ∷ protocol_entry (c_string "HTTP/1.0") version_1_0
    ∷ protocol_entry (c_string "HTTP/1.1") version_1_1
    ∷ []

-- The search for the method, with the rounds left.
unfoldable pub find_method : ℕ → Bytes → List MethodEntry → Run (Option HttpRequestMethod)
find_method zero word entries = ok none
find_method (suc rounds) word [] = fault out_of_bounds
find_method (suc rounds) word (e ∷ entries) = elim e.name [
  | none ↦ fault null_dereference
  | some name ↦ do
    same ← strcmp_equal word name
    let rest = find_method rounds word entries
    if same then ok (some e.method) else rest
]

unfoldable pub find_protocol : Bytes → List ProtocolEntry → Run (Option HttpRequestProtocol)
find_protocol word [] = ok none
find_protocol word (e ∷ entries) = do
  same ← strcmp_equal word e.name
  let rest = find_protocol word entries
  if same then ok (some e.protocol) else rest

unfoldable pub strlen : Bytes → Run ℕ
strlen [] = fault out_of_bounds
strlen (c ∷ s) = if c == 0 then ok 0 else do n ← strlen s; ok (n + 1)

-- The local variables of the loop.
pub record Scan : Type 0 where
  pub line_partition : Bytes
  pub num_parsed : ℕ
  pub word_increment : ℕ
  pub method_size : ℕ
  pub route_size : ℕ
  pub protocol_size : ℕ

-- The end of a word returns, or goes on.
pub data WordEnd : Type 0 where
  return : Bool → HttpRequest → WordEnd
  continue : HttpRequest → WordEnd

unfoldable pub end_method : Scan → HttpRequest → Run WordEnd
end_method s r = if ltb s.method_size 3 then ok (return false r) else do
  found ← find_method number_of_methods s.line_partition method_entries
  elim found [
    | none ↦ ok (return false (record r { http_method = type_null }))
    | some m ↦ ok (continue (record r { http_method = m }))
  ]

-- `memcpy(http_route, line_partition, strlen(line_partition) + 1)`
unfoldable pub store_route : Scan → HttpRequest → Run HttpRequest
store_route s r = elim r.http_route [
  | none ↦ fault null_dereference
  | some route ↦ do
    n ← strlen s.line_partition
    bytes ← copy s.line_partition (n + 1)
    route' ← paste bytes route
    ok (record r { http_route = some route'; http_route_size = s.route_size })
]

unfoldable pub end_route : Scan → HttpRequest → Run WordEnd
end_route s r = if ltb s.route_size 1 then ok (return false r) else do
  c ← read s.line_partition 0
  if not (c == b'/')
      then ok (return false (record r { http_route = none }))
      else do r' ← store_route s r; ok (continue r')

-- The last test of the C code passes for the third word, so the word is accepted where it is a
-- protocol, or `HTTP` alone.
unfoldable pub end_protocol : Scan → HttpRequest → Run WordEnd
end_protocol s r = if ltb s.protocol_size 1 then ok (return false r) else do
  found ← find_protocol s.line_partition protocol_entries
  plain ← strcmp_equal s.line_partition (c_string "HTTP")
  elim found [
    | none ↦ ok (return plain r)
    | some p ↦ ok (return true (record r { http_protocol = p }))
  ]

unfoldable pub end_word : Scan → HttpRequest → Run WordEnd
end_word s r =
    if s.word_increment == 0
    then end_method s r
    else if s.word_increment == 1
    then end_route s r
    else if s.word_increment == 2
    then end_protocol s r
    else ok (continue r)

-- A byte inside a word.
unfoldable pub store_byte : ℕ → Scan → Run Scan
store_byte c s =
    if s.word_increment == 0
    then (do
      word ← write s.line_partition s.method_size c
      ok (record s { line_partition = word; method_size = s.method_size + 1 }))
    else if s.word_increment == 1
    then (do
      word ← write s.line_partition s.route_size c
      ok (record s { line_partition = word; route_size = s.route_size + 1 }))
    else if s.word_increment == 2
    then (do
      word ← write s.line_partition s.protocol_size c
      ok (record s { line_partition = word; protocol_size = s.protocol_size + 1 }))
    else ok s

-- The end of a round: behind a word the partition is cleared.
abbrev pub next_byte : Scan → Scan
next_byte s = record s { num_parsed = s.num_parsed + 1 }

abbrev pub next_word : ℕ → Scan → Scan
next_word line_size s = record s {
  num_parsed = s.num_parsed + 1;
  word_increment = s.word_increment + 1;
  line_partition = replicate line_size 0;
}

abbrev pub too_long : ℕ → Scan → Bool
too_long line_size s = ltb line_size s.num_parsed || ltb max_http_header_line_size s.num_parsed

unfoldable pub metadata_loop : Bytes → ℕ → Scan → HttpRequest → Run (Bool × HttpRequest)
metadata_loop [] line_size s r = if too_long line_size s then ok (false, r) else fault out_of_bounds
metadata_loop (c ∷ line_cursor) line_size s r =
    if too_long line_size s
    then ok (false, r)
    else if c == b' ' || c == 0
    then (do
      ended ← end_word s r
      elim ended [
        | return result r' ↦ ok (result, r')
        | continue r' ↦ metadata_loop line_cursor line_size (next_word line_size s) r'
      ])
    else do s' ← store_byte c s; metadata_loop line_cursor line_size (next_byte s') r

-- The result, and the request that is left.
unfoldable pub validate_http_metadata :
    (line_partition : Bytes) → Option Bytes → ℕ → HttpRequest → Run (Bool × HttpRequest)
validate_http_metadata line_partition none line_size r = ok (false, r)
validate_http_metadata line_partition (some line) line_size r =
    metadata_loop line line_size
      (record {
        line_partition = line_partition;
        num_parsed = 0;
        word_increment = 0;
        method_size = 0;
        route_size = 0;
        protocol_size = 0;
      })
      r
