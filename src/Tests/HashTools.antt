-- ===== src/Tests/HashTools.antt =====
-- The table of `hash_allocate(4, …)` before and after the key `id` is stored.
use orb_weaver.Hash.Client.{
  Call, add, remove, fetch, perform, KeyMap, behind, expected, IsAllowed, empty_map, Stands,
  hash_allocate-Stands,
}
use orb_weaver.Hash.Map.{replicate-IsMap, filled-IsMap, hash_add_entry-view}
use orb_weaver.Hash.Operations.{IsKey, entry_of}
use orb_weaver.Hash.Release.{hash_free, hash_free_out_of_bounds}
use orb_weaver.Hash.View.{view, used, IsMap}
use orb_weaver.Hash.{
  Slots, keygen, generate_hash_index, slot_matches, seek_loop, hash_seek_entry, locate, empty_loop,
  empty_slot, make_entry, store_entry, add_entry, hash_add_entry, clear_slot, hash_remove_entry,
  fetch_slot, hash_fetch_entry, hash_allocate,
}
use orb_weaver.Memory.Text.{text, terminated, equal}
use orb_weaver.Memory.{Bytes, c_string, read, write, copy, strcmp_equal}
use orb_weaver.Prelude.{
  List, Option, perform_all, all_expected, behind_all, AreAllowed, ◌≡◌, refl, true, false, none,
  some, [], ◌∷◌, arith, ok, fault, out_of_bounds, Returns, if◌then◌else◌, set, replicate, ◌+◌,
}

program : Unit {0}
unfolding text terminated equal read write copy strcmp_equal view used keygen generate_hash_index
    slot_matches seek_loop hash_seek_entry locate empty_loop empty_slot make_entry store_entry
    add_entry hash_add_entry clear_slot hash_remove_entry fetch_slot hash_fetch_entry hash_allocate
program = tt

abbrev id : Bytes
id = c_string "id"

abbrev name : Bytes
name = c_string "name"

abbrev empty : Slots
empty = replicate 8 none

abbrev stored : Slots
stored = set empty 3 (some (entry_of id 2 (c_string "seven") 5))

-- `id` is stored in slot 3.
add_id :
    hash_add_entry true (some id) 2 (some (c_string "seven")) 5 (some empty) 4 (some 0)
    ≡ ok (record { done = true; table = some stored; hash_index = some 3 })
unfolding program
add_id = refl

fetch_name : hash_fetch_entry (some name) 4 (some stored) 4 (some []) ≡ ok (false, some [])
unfolding program
fetch_name = refl

remove_id : hash_remove_entry (some id) 2 (some stored) 4 ≡ ok (true, some empty)
unfolding program
remove_id = refl

-- A key that is added again gets a second entry.
add_twice :
    Returns
      (hash_add_entry true (some id) 2 (some (c_string "eight")) 5 (some stored) 4 (some 0))
      λ r. (r.done ≡ true) × (r.hash_index ≡ some 4)
unfolding program
add_twice = (_, refl, (refl, refl))

abbrev is_key : IsKey id 2
unfolding text terminated
is_key = record { closed = refl; size = refl; pos = omega arith }

abbrev name-is_key : IsKey name 4
unfolding text terminated
name-is_key = record { closed = refl; size = refl; pos = omega arith }

empty-IsMap : IsMap 4 empty
empty-IsMap = replicate-IsMap 4 (omega arith)

stored-IsMap : IsMap 4 stored
unfolding program
stored-IsMap =
    filled-IsMap 4 empty empty-IsMap (omega arith) id 2 is_key (c_string "seven") 5 (omega arith)
      (omega arith) 3 (omega arith) (omega arith) refl refl

hash_add_entry-view_example :
    Returns
      (hash_add_entry true (some name) 4 (some (c_string "orb")) 3 (some stored) 4 (some 0))
      λ r.
        (r.done ≡ true)
        × (t' : Slots) × (r.table ≡ some t')
        × IsMap 4 t'
        × (used t' ≡ used stored + 1)
        × ((q : Bytes)
            → view q t' ≡ (if equal (text name) q then some (c_string "orb") else view q stored))
unfolding program
hash_add_entry-view_example =
    hash_add_entry-view 4 stored stored-IsMap (omega arith) name 4 name-is_key (c_string "orb") 3
      (omega arith) (omega arith) 0 refl (omega arith)

-- Two keys are added and one of them removed, with lookups in between.
abbrev calls : List Call
calls =
    add id 2 (c_string "seven") 5
    ∷ fetch id 2
    ∷ add name 4 (c_string "orb") 3
    ∷ remove id 2
    ∷ fetch id 2
    ∷ fetch name 4
    ∷ []

abbrev no_key : KeyMap
no_key = empty_map 7

all_expected_calls :
    all_expected behind expected calls no_key
    ≡ (true, none)
      ∷ (true, some (c_string "seven"))
      ∷ (true, none)
      ∷ (true, none)
      ∷ (false, some [])
      ∷ (true, some (c_string "orb"))
      ∷ []
unfolding program
all_expected_calls = refl

calls-AreAllowed : AreAllowed behind IsAllowed calls no_key
unfolding program
calls-AreAllowed = (
  (is_key, omega arith, omega arith, refl, omega arith),
  (
    is_key,
    (
      (name-is_key, omega arith, omega arith, refl, omega arith),
      (is_key, (is_key, (name-is_key, tt))),
    ),
  ),
)

hash_allocate-Stands_example :
    (table : Option Slots) × (hash_allocate true 4 none ≡ (true, table))
    × (table' : Option Slots) × (perform_all (perform 4) calls table
        ≡ ok (all_expected behind expected calls no_key, table'))
    × Stands 4 table' (behind_all behind calls no_key)
hash_allocate-Stands_example =
    hash_allocate-Stands 4 calls (omega arith) (omega arith) calls-AreAllowed

hash_free_out_of_bounds_example : hash_free (some (some stored ∷ [])) 4 ≡ fault out_of_bounds
unfolding program
hash_free_out_of_bounds_example =
    hash_free_out_of_bounds 4 none
      (none ∷ none ∷ some (entry_of id 2 (c_string "seven") 5) ∷ replicate 4 none) (omega arith)
      (omega arith)
