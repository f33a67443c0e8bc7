-- ===== src/Hash.antt =====
-- utilities/hash-tools/hash_tools.c: the open-address table. A table is its array of slots, `none`
-- for `NULL`; a pointer that may be `NULL` is an `Option`. Slot 0 is never filled. `calloc` is an
-- argument that says whether the allocation succeeds. Indices and step counters stay below
-- `table_size + 2`, so only the hash itself and the doubling of `table_size` can wrap.
pub mod Index
pub mod Probe
pub mod Table
pub mod Locate
pub mod Operations
pub mod View
pub mod Map
pub mod Client
pub mod Release
use orb_weaver.Memory.{Bytes, read, write, copy, strcmp_equal}
use orb_weaver.Prelude.{
  ℕ, zero, suc, ◌+◌, ◌-◌, ◌*◌, ◌%◌, ◌^◌, Bool, true, false, ◌||◌, not, Option, none, some, List, [],
  ◌∷◌, ◌++◌, Run, ok, fault, out_of_bounds, out_of_fuel, ◌>>=◌, ltb, leb, ◌==◌, if◌then◌else◌,
  replicate,
}

pub record HashEntry : Type 0 where
  pub key_size : ℕ
  pub value_size : ℕ
  pub key : Bytes
  pub value : Bytes

abbrev pub Slots : Type 0
Slots = List (Option HashEntry)

abbrev pub keygen_salt : ℕ
keygen_salt = 31

-- `(size_t)c` of a signed `char`
unfoldable pub char_to_size : ℕ → ℕ
char_to_size c = if ltb c 128 then c else c + (2 ^ 64 - 256)

-- The loop of `_generate_hash_index`, with the rounds left and the bytes from the cursor on.
unfoldable pub keygen : ℕ → Bytes → ℕ → Run ℕ
unfolding char_to_size
keygen zero key value = ok value
keygen (suc n) [] value = fault out_of_bounds
keygen (suc n) (c ∷ key) value = keygen n key ((value * keygen_salt + char_to_size c) % 2 ^ 64)

-- `none` is the result `false`, which leaves `*hash_index` as it was. Every caller passes the
-- address of a variable, so the test of the pointer itself has no case here.
unfoldable pub generate_hash_index : Option Bytes → ℕ → ℕ → Run (Option ℕ)
generate_hash_index none key_size table_size = ok none
generate_hash_index (some key) key_size table_size =
    if key_size == 0 || ltb table_size 2 then ok none else do
      value ← keygen key_size key 0
      let result = value % table_size
      ok (some (if result == 0 then 1 else result))

-- `table[i] && strcmp(table[i]->key, key) == 0`
unfoldable pub slot_matches : Option HashEntry → Bytes → Run Bool
slot_matches none key = ok false
slot_matches (some entry) key = strcmp_equal entry.key key

-- The loop of `_hash_seek_entry`; `none` is the result `false`.
unfoldable pub seek_loop : ℕ → Bytes → Slots → ℕ → ℕ → ℕ → Run (Option ℕ)
seek_loop zero key table table_size probe step = fault out_of_fuel
seek_loop (suc fuel) key table table_size probe step =
    let wraps = leb table_size (probe + 1) in
    let probe' = if wraps then 1 else probe + 1 in
    let step' = if wraps then step + 1 else step in
    let rest = seek_loop fuel key table table_size probe' (step' + 1) in
    if ltb step table_size
    then (do
      entry ← read table probe'
      hit ← slot_matches entry key
      if hit then ok (some probe') else rest)
    else ok none

unfoldable pub hash_seek_entry : Bytes → Slots → ℕ → ℕ → Run (Option ℕ)
hash_seek_entry key table table_size hash_index =
    seek_loop (table_size + 1) key table table_size hash_index 0

-- The slot that `hash_remove_entry` and `hash_fetch_entry` settle on; `none` where they give up.
unfoldable pub locate : Bytes → Slots → ℕ → ℕ → Run (Option ℕ)
locate key table table_size hash_index = do
  entry ← read table hash_index
  here ← slot_matches entry key
  if here then ok (some hash_index) else do
    found ← hash_seek_entry key table table_size hash_index
    elim found [
      | none ↦ ok none
      | some i ↦ if i == 0 || leb table_size i then ok none else ok (some i)
    ]

-- The `while` loop of `hash_add_entry`; `none` where no empty slot is found.
unfoldable pub empty_loop : ℕ → Slots → ℕ → ℕ → ℕ → Run (Option ℕ)
empty_loop zero table table_size probe step = fault out_of_fuel
empty_loop (suc fuel) table table_size probe step =
    let wraps = leb table_size (probe + 1) in
    let rest =
      empty_loop fuel table table_size (if wraps then 1 else probe + 1)
        (if wraps then step + 2 else step + 1) in
    do
      entry ← read table probe
      elim entry [
        | none ↦ ok (some probe)
        | some _ ↦ if leb table_size (step + 1) then ok none else rest
      ]

-- The collision logic of `hash_add_entry`.
unfoldable pub empty_slot : Slots → ℕ → ℕ → Run (Option ℕ)
empty_slot table table_size hash_index = do
  entry ← read table hash_index
  elim entry [
    | none ↦ ok (some hash_index)
    | some _ ↦ empty_loop (table_size + 1) table table_size hash_index 0
  ]

-- The flat block: both copies are closed by a `'\0'`.
unfoldable pub make_entry : Bytes → ℕ → Bytes → ℕ → Run HashEntry
make_entry key key_size value value_size = do
  k ← copy key key_size
  v ← copy value value_size
  ok (record {
    key_size = key_size;
    value_size = value_size;
    key = k ++ 0 ∷ [];
    value = v ++ 0 ∷ [];
  })

-- What `hash_add_entry` returns, and the table and `*hash_index` that it leaves.
pub record Added : Type 0 where
  pub done : Bool
  pub table : Option Slots
  pub hash_index : Option ℕ

abbrev pub added : Bool → Slots → ℕ → Added
added done table i = record { done = done; table = some table; hash_index = some i }

-- `hash_add_entry` behind the collision logic, with the slot that was found from the hash `h`.
unfoldable pub store_entry : Bool → Bytes → ℕ → Bytes → ℕ → Slots → ℕ → Option ℕ → Run Added
store_entry calloc key key_size value value_size table h none = ok (added false table h)
store_entry calloc key key_size value value_size table h (some i) =
    if not calloc then ok (added false table i) else do
      entry ← make_entry key key_size value value_size
      table' ← write table i (some entry)
      ok (added true table' i)

-- `hash_add_entry` behind its tests of the arguments; `table_size` is doubled here.
unfoldable pub add_entry : Bool → Bytes → ℕ → Bytes → ℕ → Slots → ℕ → Run Added
add_entry calloc key key_size value value_size table table_size = do
  found ← generate_hash_index (some key) key_size table_size
  elim found [
    | none ↦ ok (added false table 0)
    | some h ↦ if leb table_size h || h == 0 then ok (added false table 0) else do
      slot ← empty_slot table table_size h
      store_entry calloc key key_size value value_size table h slot
  ]

unfoldable pub hash_add_entry :
    Bool → Option Bytes → ℕ → Option Bytes → ℕ → Option Slots → ℕ → Option ℕ → Run Added
hash_add_entry calloc (some key) key_size (some value) value_size (some table) table_size
      (some index) =
    if key_size == 0 || value_size == 0 || table_size == 0
    then ok (added false table index)
    else add_entry calloc key key_size value value_size table (table_size * 2 % 2 ^ 64)
hash_add_entry calloc key key_size value value_size table table_size index =
    ok (record { done = false; table = table; hash_index = index })

-- The end of `hash_remove_entry`, with the slot that was settled on.
unfoldable pub clear_slot : Slots → Option ℕ → Run (Bool × Option Slots)
clear_slot table none = ok (false, some table)
clear_slot table (some i) = do table' ← write table i none; ok (true, some table')

-- The result, and the table that is left.
unfoldable pub hash_remove_entry : Option Bytes → ℕ → Option Slots → ℕ → Run (Bool × Option Slots)
hash_remove_entry (some key) key_size (some table) table_size =
    if key_size == 0 || table_size == 0 then ok (false, some table) else do
      let doubled = table_size * 2 % 2 ^ 64
      found ← generate_hash_index (some key) key_size doubled
      elim found [
        | none ↦ ok (false, some table)
        | some h ↦
            if h == 0 || leb doubled h
            then ok (false, some table)
            else do slot ← locate key table doubled h; clear_slot table slot
      ]
hash_remove_entry key key_size table table_size = ok (false, table)

-- The end of `hash_fetch_entry`, with the slot that was settled on.
unfoldable pub fetch_slot : Bytes → Slots → Option ℕ → Run (Bool × Option Bytes)
fetch_slot old table none = ok (false, some old)
fetch_slot old table (some i) = do
  entry ← read table i
  elim entry [ none ↦ ok (false, some old) | some e ↦ ok (true, some e.value) ]

-- The result, and the pointer that `*value` then holds, as the block that it points to. `value` is
-- the address of a variable with an old value, or `NULL`.
unfoldable pub hash_fetch_entry :
    Option Bytes → ℕ → Option Slots → ℕ → Option Bytes → Run (Bool × Option Bytes)
hash_fetch_entry (some key) key_size (some table) table_size (some old) =
    if key_size == 0 || table_size == 0 then ok (false, some old) else do
      let doubled = table_size * 2 % 2 ^ 64
      found ← generate_hash_index (some key) key_size doubled
      elim found [
        | none ↦ ok (false, some old)
        | some h ↦
            if h == 0 || leb doubled h
            then ok (false, some old)
            else do slot ← locate key table doubled h; fetch_slot old table slot
      ]
hash_fetch_entry key key_size table table_size value = ok (false, value)

-- `table` points to a variable that may already hold a table.
unfoldable pub hash_allocate : Bool → ℕ → Option Slots → Bool × Option Slots
hash_allocate calloc num_entries (some table) = (false, some table)
hash_allocate calloc num_entries none =
    if ltb num_entries 2
    then (false, none)
    else if not calloc
    then (false, none)
    else (true, some (replicate (num_entries * 2 % 2 ^ 64) none))
