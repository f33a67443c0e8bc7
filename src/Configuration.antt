-- ===== src/Configuration.antt =====
-- configuration/parsers/configuration-handler/configuration_handler.c and its header: the reader of
-- `name = value` lines. What `stat`, `fopen`, `fgets` and `sysctlbyname` return are arguments; the
-- lines are given as `fgets` would deliver them.
pub mod Fields
pub mod Line
pub mod Values
pub mod File
use orb_weaver.ErrorHandler.{validate_syscall}
use orb_weaver.Memory.{Bytes, char_rank, c_string, read, strcmp_equal}
use orb_weaver.Prelude.{
  ℕ, zero, suc, ◌+◌, ◌-◌, ◌*◌, ◌%◌, ◌^◌, Bool, true, false, not, ◌||◌, Option, none, some, List, [],
  ◌∷◌, ◌++◌, Run, ok, fault, out_of_bounds, ◌>>=◌, ltb, leb, ◌==◌, if◌then◌else◌, length, drop,
  replicate, ℤ, pos, negsuc, is_negative,
}

abbrev pub default_max_connections : ℕ
default_max_connections = 4096

abbrev pub default_port : ℕ
default_port = 8888

abbrev pub default_num_cores : ℕ
default_num_cores = 8

abbrev pub default_max_num_routes : ℕ
default_max_num_routes = 256

abbrev pub max_value_length : ℕ
max_value_length = 20

abbrev pub max_field_length : ℕ
max_field_length = 200

-- `config_values`
pub data ConfigValues : Type 0 where
  config_max_connections config_port config_num_cores config_max_num_routes config_null :
      ConfigValues

pub record Configuration : Type 0 where
  pub max_connections : ℕ
  pub port : ℕ
  pub num_cores : ℕ
  pub max_num_routes : ℕ

-- `config` before it is read.
abbrev pub config : Configuration
config = record {
  max_connections = default_max_connections;
  port = default_port;
  num_cores = default_num_cores;
  max_num_routes = default_max_num_routes;
}

pub record CfgEntry : Type 0 where
  pub name : Option Bytes
  pub offset : ℕ
  pub type : ConfigValues

abbrev cfg_entry : Option Bytes → ℕ → ConfigValues → CfgEntry
cfg_entry n o t = record { name = n; offset = o; type = t }

abbrev pub cfg_entries : List CfgEntry
cfg_entries =
    cfg_entry (some (c_string "max_connections")) 0 config_max_connections
    ∷ cfg_entry (some (c_string "port")) 8 config_port
    ∷ cfg_entry (some (c_string "num_cores")) 16 config_num_cores
    ∷ cfg_entry (some (c_string "max_num_routes")) 24 config_max_num_routes
    ∷ cfg_entry none 0 config_null
    ∷ []

-- A `size_t` read and written at an offset into `config`.
unfoldable pub load_at : ℕ → Configuration → Run ℕ
load_at offset c =
    if offset == 0
    then ok c.max_connections
    else if offset == 8
    then ok c.port
    else if offset == 16
    then ok c.num_cores
    else if offset == 24
    then ok c.max_num_routes
    else fault out_of_bounds

unfoldable pub store_at : ℕ → ℕ → Configuration → Run Configuration
store_at offset value c =
    if offset == 0
    then ok (record c { max_connections = value })
    else if offset == 8
    then ok (record c { port = value })
    else if offset == 16
    then ok (record c { num_cores = value })
    else if offset == 24
    then ok (record c { max_num_routes = value })
    else fault out_of_bounds

-- `_validate_field_name` from an entry on; `none` is the result `false`.
unfoldable pub find_name : Bytes → List CfgEntry → Run (Option CfgEntry)
find_name name [] = fault out_of_bounds
find_name name (e ∷ entries) = elim e.name [
  | none ↦ ok none
  | some valid ↦ do
    same ← strcmp_equal name valid
    let rest = find_name name entries
    if same then ok (some e) else rest
]

unfoldable pub validate_field_name : Bytes → Run (Option CfgEntry)
unfolding find_name strcmp_equal
validate_field_name name = find_name name cfg_entries

abbrev pub same_value : ConfigValues → ConfigValues → Bool
same_value config_max_connections config_max_connections = true
same_value config_port config_port = true
same_value config_num_cores config_num_cores = true
same_value config_max_num_routes config_max_num_routes = true
same_value config_null config_null = true
same_value _ _ = false

-- `_find_enum_row` from an entry on.
unfoldable pub find_type : ConfigValues → List CfgEntry → Run (Option CfgEntry)
find_type target [] = fault out_of_bounds
find_type target (e ∷ entries) =
    let rest = find_type target entries in
    if same_value e.type config_null
    then ok none
    else if same_value target e.type
    then ok (some e)
    else rest

unfoldable pub find_enum_row : ConfigValues → Run (Option CfgEntry)
unfolding find_type
find_enum_row target = find_type target cfg_entries

-- The field name, and the line from the byte behind it; `none` is the return for a byte above 127,
-- which a signed `char` never is.
unfoldable pub name_loop : ℕ → Bytes → Bytes → Run (Option (Bytes × Bytes))
name_loop zero line name = ok (some (name, line))
name_loop (suc rounds) [] name = fault out_of_bounds
name_loop (suc rounds) (c ∷ line) name =
    let rest = name_loop rounds line (name ++ c ∷ []) in
    if c == b' ' || c == b'\n' || c == b'\r'
    then ok (some (name, c ∷ line))
    else if ltb (char_rank 127) (char_rank c)
    then ok none
    else rest

-- The bytes of the value.
unfoldable pub value_loop : ℕ → Bytes → Bytes → Run Bytes
value_loop zero line value = ok value
value_loop (suc rounds) [] value = fault out_of_bounds
value_loop (suc rounds) (c ∷ line) value =
    let rest = value_loop rounds line (value ++ c ∷ []) in
    if c == 0 || c == b'\n' then ok value else rest

abbrev pub is_digit : ℕ → Bool
is_digit c = not (ltb (char_rank c) (char_rank b'0') || ltb (char_rank b'9') (char_rank c))

-- The value as a number; `none` where a byte is not a digit.
unfoldable pub number_loop : Bytes → ℕ → Run (Option ℕ)
number_loop [] value = fault out_of_bounds
number_loop (c ∷ cache) value =
    let rest = number_loop cache ((value * 10 + (c - b'0')) % 2 ^ 64) in
    if c == 0 then ok (some value) else if is_digit c then rest else ok none

-- A cache of `size` zeros with the bytes written from its front.
abbrev pub cache : ℕ → Bytes → Bytes
cache size bytes = bytes ++ replicate (size - length bytes) 0

-- The assignment behind the name; `line` begins at the byte that ended the name.
unfoldable pub parse_value : CfgEntry → Bytes → Configuration → Run (Bool × Configuration)
unfolding read
parse_value entry line c = do
  equals ← read line 1
  if not (equals == b'=') then ok (false, c) else do
    space ← read line 2
    if not (space == b' ') then ok (false, c) else do
      digit ← read line 3
      if not (is_digit digit) then ok (false, c) else do
        value ← value_loop max_value_length (drop 3 line) []
        number ← number_loop (cache max_value_length value) 0
        elim number [
          | none ↦ ok (false, c)
          | some n ↦
              if n == 0 then ok (false, c) else do c' ← store_at entry.offset n c; ok (true, c')
        ]

-- One round of the loop of `_parse_configuration`, on the buffer `line`. The result `true` goes on
-- to the next line.
unfoldable pub parse_line : Bytes → Configuration → Run (Bool × Configuration)
parse_line line c = do
  named ← name_loop max_field_length line []
  elim named [
    | none ↦ ok (false, c)
    | some (name, rest) ↦ if ltb (length name) 2 then ok (true, c) else do
      entry ← validate_field_name (cache max_field_length name)
      elim entry [ none ↦ ok (false, c) | some e ↦ parse_value e rest c ]
  ]

-- `fgets(line, MAX_FIELD_LENGTH, …)`: what the line holds behind the closing 0 stays.
abbrev pub fgets : Bytes → Bytes → Bytes
fgets content line = content ++ 0 ∷ drop (suc (length content)) line

unfoldable pub parse_lines : List Bytes → Bytes → Configuration → Run (Bool × Configuration)
parse_lines [] line c = ok (true, c)
parse_lines (content ∷ contents) line c = do
  let line' = fgets content line
  (go_on, c') ← parse_line line' c
  let rest = parse_lines contents line' c'
  if go_on then rest else ok (false, c')

-- `folder` says whether `stat` finds the folder, and `file` holds the lines if `fopen` succeeds.
unfoldable pub parse_configuration :
    Bool → Option (List Bytes) → Configuration → Run (Bool × Configuration)
parse_configuration false file c = ok (false, c)
parse_configuration true none c = ok (false, c)
parse_configuration true (some contents) c = parse_lines contents (replicate max_field_length 0) c

-- `status` and `num_cores` are what `sysctlbyname` returns and leaves in its buffer.
unfoldable pub initialize_configuration :
    Bool → Option (List Bytes) → ℤ → ℤ → Configuration → Run (Bool × Configuration)
unfolding validate_syscall
initialize_configuration folder file status num_cores c = do
  (parsed, c') ← parse_configuration folder file c
  if not parsed
      then ok (false, c')
      else if not (validate_syscall status true)
      then ok (false, c')
      else elim num_cores [
        | negsuc _ ↦ ok (false, c')
        | pos n ↦ ok (true, record c' { num_cores = n })
      ]

-- The result, and what `*value` holds.
unfoldable pub fetch_configuration_by_name : Bytes → ℕ → Configuration → Run (Bool × ℕ)
unfolding validate_field_name load_at
fetch_configuration_by_name target value c = do
  entry ← validate_field_name target
  elim entry [ none ↦ ok (false, value) | some e ↦ do v ← load_at e.offset c; ok (true, v) ]

unfoldable pub fetch_configuration_by_enum : ConfigValues → ℕ → Configuration → Run (Bool × ℕ)
unfolding find_enum_row load_at
fetch_configuration_by_enum target value c = do
  entry ← find_enum_row target
  elim entry [ none ↦ ok (false, value) | some e ↦ do v ← load_at e.offset c; ok (true, v) ]
