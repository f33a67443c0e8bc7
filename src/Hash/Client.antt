-- ===== src/Hash/Client.antt =====
-- A client of the table: calls one after the other, against the finite map that they stand for.
use orb_weaver.Hash.Map.{
  fetched, is_some, hash_allocate-IsMap, hash_fetch_entry-view, hash_add_entry-view,
  hash_remove_entry-view,
}
use orb_weaver.Hash.Operations.{IsKey}
use orb_weaver.Hash.View.{view, used, IsMap}
use orb_weaver.Hash.{Slots, hash_add_entry, hash_fetch_entry, hash_remove_entry, hash_allocate}
use orb_weaver.Memory.Text.{text, equal}
use orb_weaver.Memory.{Bytes}
use orb_weaver.Prelude.{
  ℕ, ◌+◌, ◌*◌, ◌^◌, ◌≤◌, ◌<◌, ◌≡◌, refl, ◌∙◌, Bool, true, Option, none, some, List, [], ◌∷◌, ◌++◌,
  arith, Run, ok, ◌>>=◌, if◌then◌else◌, length, take, ◌-◌, Simulates, perform_all, behind_all,
  all_expected, AreAllowed, perform_all-Stands,
}

-- A call, on the table that the client holds.
pub data Call : Type 0 where
  add : (key : Bytes) (key_size : ℕ) (value : Bytes) (value_size : ℕ) → Call
  remove : (key : Bytes) (key_size : ℕ) → Call
  fetch : (key : Bytes) (key_size : ℕ) → Call

-- The result, and for `fetch` what `*value` holds.
abbrev pub Answer : Type 0
Answer = Bool × Option Bytes

-- A call with `n` entries for the size of the table; `*value` is empty before.
unfoldable pub perform : ℕ → Call → Option Slots → Run (Answer × Option Slots)
perform n (add key key_size value value_size) table = do
  r ← hash_add_entry true (some key) key_size (some value) value_size table n (some 0)
  ok ((r.done, none), r.table)
perform n (remove key key_size) table = do
  (removed, table') ← hash_remove_entry (some key) key_size table n
  ok ((removed, none), table')
perform n (fetch key key_size) table = do
  answer ← hash_fetch_entry (some key) key_size table n (some [])
  ok (answer, table)

-- The values of the keys, and how many slots are free for more keys.
pub record KeyMap : Type 0 where
  pub values : Bytes → Option Bytes
  pub room : ℕ

-- The map behind a call.
abbrev pub behind : Call → KeyMap → KeyMap
behind (add key key_size value value_size) m = record {
  values = λ q. if equal (text key) q then some (take value_size value ++ 0 ∷ []) else m.values q;
  room = m.room - 1;
}
behind (remove key key_size) m = record {
  values = λ q. if equal (text key) q then none else m.values q;
  room = m.room + (if is_some (m.values (text key)) then 1 else 0);
}
behind (fetch key key_size) m = m

abbrev pub expected : Call → KeyMap → Answer
expected (add key key_size value value_size) m = (true, none)
expected (remove key key_size) m = (is_some (m.values (text key)), none)
expected (fetch key key_size) m = fetched [] (m.values (text key))

-- Keys are C strings of their sizes; only a key without a value is added, while there is room.
abbrev pub IsAllowed : Call → KeyMap → Type 0
IsAllowed (add key key_size value value_size) m =
    IsKey key key_size
    × (0 < value_size)
    × (value_size ≤ length value)
    × (m.values (text key) ≡ none)
    × (0 < m.room)
IsAllowed (remove key key_size) m = IsKey key key_size
IsAllowed (fetch key key_size) m = IsKey key key_size

abbrev pub empty_map : ℕ → KeyMap
empty_map room = record { values = λ q. none; room = room }

-- The table, of `n` entries, stands for the map; slot 0 stays empty.
pub record Stands (n : ℕ) (table : Option Slots) (m : KeyMap) : Type 0 where
  pub slots : Slots
  pub holds : table ≡ some slots
  pub is_map : IsMap n slots
  pub same : (q : Bytes) → view q slots ≡ m.values q
  pub free : used slots + m.room + 1 ≡ n * 2

module _ (n : ℕ) (small : n * 2 < 2 ^ 64) where
  perform-Stands :
      (call : Call) (table : Option Slots) (m : KeyMap)
      → Stands n table m
      → IsAllowed call m
      → (table' : Option Slots) × (perform n call table ≡ ok (expected call m, table'))
        × Stands n table' (behind call m)
  unfolding perform
  perform-Stands (add key key_size value value_size) table m h (k, pos, fits, new, room) =
      let (r, run, accepts) =
        hash_add_entry-view n h.slots h.is_map small key key_size k value value_size pos fits 0
          (h.same (text key) ∙ new) (omega (arith, h.free)) in
      let (done, t', stored, is', more, view') = accepts in
      (
        some t',
        rw (h.holds, run, done, stored) refl,
        record {
          slots = t';
          holds = refl;
          is_map = is';
          same = λ q. view' q ∙ rw (h.same q) refl;
          free = omega (arith, h.free);
        },
      )
  perform-Stands (remove key key_size) table m h k =
      let (r, run, accepts) = hash_remove_entry-view n h.slots h.is_map small key key_size k in
      let (t', result, is', fewer, view') = accepts in
      (
        some t',
        rw (h.holds, run, result, h.same (text key)) refl,
        record {
          slots = t';
          holds = refl;
          is_map = is';
          same = λ q. view' q ∙ rw (h.same q) refl;
          free = (let fewer' = rw (h.same (text key)) at fewer in omega (arith, h.free));
        },
      )
  perform-Stands (fetch key key_size) table m h k = (
    table,
    rw
        (
          h.holds,
          hash_fetch_entry-view n h.slots h.is_map small key key_size k [],
          h.same (text key),
        )
        refl,
    h,
  )

  pub hash_tools : Simulates (perform n) IsAllowed expected behind (Stands n)
  hash_tools = record { performs = perform-Stands }

-- A table for two entries or more whose doubled number fits in 64 bits, with memory from `calloc`,
-- and any sequence of calls with keys that are C strings of their sizes, which add only keys without
-- a value, and only while one of the `n * 2 - 1` places is left: every call ends and returns what the
-- finite map says that the calls before it make of the empty one, and the table at the end stands for
-- the map at the end.
pub hash_allocate-Stands :
    (n : ℕ) (calls : List Call)
    → 2 ≤ n
    → n * 2 < 2 ^ 64
    → AreAllowed behind IsAllowed calls (empty_map (n * 2 - 1))
    → (table : Option Slots) × (hash_allocate true n none ≡ (true, table))
      × (table' : Option Slots) × (perform_all (perform n) calls table
          ≡ ok (all_expected behind expected calls (empty_map (n * 2 - 1)), table'))
      × Stands n table' (behind_all behind calls (empty_map (n * 2 - 1)))
hash_allocate-Stands n calls two small allowed =
    let (t, made, is, empty, nothing) = hash_allocate-IsMap n two small in
    let start : Stands n (some t) (empty_map (n * 2 - 1)) = record {
      slots = t;
      holds = refl;
      is_map = is;
      same = nothing;
      free = omega arith;
    } in
    let (table', run, h) =
      perform_all-Stands (hash_tools n small) calls (some t) (empty_map (n * 2 - 1)) start
        allowed in
    (some t, made, table', run, h)
