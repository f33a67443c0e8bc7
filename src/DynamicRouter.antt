-- ===== src/DynamicRouter.antt =====
-- services/http/dynamic-router/dynamic_router.c: `initialize`, `bind_route`,
-- `invoke_route` and `_get_key`. A method is its number.
pub mod Key
pub mod Bind
use orb_weaver.Hash.{HashEntry, Slots, Added, hash_add_entry, hash_allocate}
use orb_weaver.Memory.{Bytes, write, copy}
use orb_weaver.Prelude.{
  ℕ, ◌+◌, ◌%◌, Bool, true, false, not, Option, none, some, [], ◌∷◌, Run, ok, fault, out_of_bounds,
  ◌>>=◌, ltb, leb, ◌==◌, if◌then◌else◌, ◌*◌, ◌-◌, ◌^◌, ◌||◌, replicate,
}

-- The static variables.
pub record Router : Type 0 where
  pub initialized : Bool
  pub configured_routes : Option Slots
  pub max_num_routes : ℕ
  pub num_routes : ℕ

-- `calloc` says whether `hash_allocate` gets its memory, and `max_num_routes` is that of `config`.
unfoldable pub initialize : Bool → ℕ → Router → Bool × Router
unfolding hash_allocate
initialize calloc max_num_routes router =
    if ltb max_num_routes 1
    then (false, record router { max_num_routes = max_num_routes; initialized = false })
    else elim (hash_allocate calloc max_num_routes router.configured_routes).1 [
      | none ↦ (
        false,
        record router {
          max_num_routes = max_num_routes;
          configured_routes = none;
          initialized = false;
        },
      )
      | some table ↦ (
        true,
        record router {
          max_num_routes = max_num_routes;
          configured_routes = some table;
          initialized = true;
        },
      )
    ]

unfoldable pub invoke_route : Router → Bool
invoke_route router = if not router.initialized then false else true

-- The loop of `_get_key`: where `key` points behind it, and the bytes.
unfoldable pub key_loop : Bytes → ℕ → Bytes → Run (ℕ × Bytes)
key_loop [] i key = fault out_of_bounds
key_loop (c ∷ source) i key =
    if c == 0 then ok (i, key) else do key' ← write key i c; key_loop source (i + 1) key'

-- The result, and the bytes of `key`. `*(++key) = …` leaves out the byte behind the path.
unfoldable pub get_key : Bytes → ℕ → ℕ → Bytes → ℕ → Run (Bool × Bytes)
unfolding key_loop
get_key path path_size method key key_size = if leb key_size path_size then ok (false, key) else do
  (i, key') ← key_loop path 0 key
  key'' ← write key' (i + 1) ((method + b'0') % 256)
  ok (true, key'')

-- TYPE_COUNT
abbrev pub type_count : ℕ
type_count = 5

-- `sizeof(route_metadata)`
abbrev pub route_size : ℕ
route_size = 16

-- A block of zeros, read as a `hash_entry`: its pointers are `NULL`.
abbrev pub zero_entry : HashEntry
zero_entry = record { key_size = 0; value_size = 0; key = []; value = [] }

-- What `calloc` gives `bind_route`, and what is in memory there: `slot` and `metadata` say whether
-- its two calls succeed, `entry` whether the one of `hash_add_entry` does, `junk` is each byte of the
-- array `key` at its start, `pointer` the 8 bytes of the variable `metadata`, and `routes` the entry
-- that `configured_routes` points to where it is read as an entry.
pub record BindCalls : Type 0 where
  pub slot : Bool
  pub metadata : Bool
  pub entry : Bool
  pub junk : ℕ
  pub pointer : Bytes
  pub routes : HashEntry

-- `configured_routes[num_routes].value = calloc(…)`: `configured_routes` is declared as an array of
-- entries of 32 bytes, with `value` at 24, on top of a table of pointers of 8 bytes.
unfoldable pub reserve_slot : Bool → Slots → ℕ → Run Slots
reserve_slot slot table num_routes =
    write table (num_routes * 4 + 3) (if slot then some zero_entry else none)

-- The call of `hash_add_entry`, whose table is the variable `configured_routes` itself, and whose
-- value is the variable `metadata`.
unfoldable pub add_route : BindCalls → Bytes → ℕ → ℕ → ℕ → Run Added
unfolding hash_add_entry
add_route calls key key_size metadata_size max_num_routes =
    hash_add_entry calls.entry (some key) key_size (some calls.pointer) metadata_size
      (some (some calls.routes ∷ [])) max_num_routes (some (2 ^ 64 - 1))

-- `bind_route` behind its tests, up to the line `if()`, which is not C: a run that gets there has the
-- result `true`.
unfoldable pub register_route : BindCalls → ℕ → ℕ → ℕ → Bytes → Slots → Router → Run (Bool × Router)
unfolding get_key reserve_slot add_route
register_route calls max_num_routes method path_size path table router = do
  table' ← reserve_slot calls.slot table router.num_routes
  let router' : Router = record router { configured_routes = some table' }
  let key_size = (path_size + 1) % 2 ^ 64
  if not calls.slot then ok (false, router') else do
    (made, key) ← get_key path path_size method (replicate key_size calls.junk) key_size
    if not made then ok (false, router') else if not calls.metadata then ok (false, router') else do
      _ ← copy path path_size
      let metadata_size = (route_size + path_size) % 2 ^ 64
      result ← add_route calls key key_size metadata_size max_num_routes
      ok (result.done, router')

-- `max_num_routes` is that of `config`.
unfoldable pub bind_route : BindCalls → ℕ → ℕ → ℕ → Option Bytes → Router → Run (Bool × Router)
unfolding register_route
bind_route calls max_num_routes method path_size path router =
    if not router.initialized then ok (false, router) else elim router.configured_routes [
      | none ↦ ok (false, router)
      | some table ↦
          if leb type_count method || ltb path_size 1 then ok (false, router) else elim path [
            | none ↦ ok (false, router)
            | some p ↦
                if ltb max_num_routes router.num_routes
                then ok (false, router)
                else register_route calls max_num_routes method path_size p table router
          ]
    ]
