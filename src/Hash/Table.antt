-- ===== src/Hash/Table.antt =====
-- What every operation keeps true of a table, and when a slot holds a key.
use orb_weaver.Hash.{HashEntry, Slots, slot_matches}
use orb_weaver.Memory.Text.{text, terminated, equal, strcmp_equal-text}
use orb_weaver.Memory.{Bytes}
use orb_weaver.Prelude.{
  ℕ, ◌≤◌, ◌≡◌, refl, Bool, true, false, Option, none, some, ok, length, get_or,
}

abbrev pub slot : Slots → ℕ → Option HashEntry
slot table i = get_or table i none

-- An array of `size` slots whose slot 0 is empty and whose keys are C strings.
pub record IsTable (size : ℕ) (table : Slots) : Type 0 where
  pub width : length table ≡ size
  pub two : 2 ≤ size
  pub slot_zero : slot table 0 ≡ none
  pub keys : (i : ℕ) {e : HashEntry} → slot table i ≡ some e → terminated e.key ≡ true

-- The slot holds an entry whose key is the text `k`.
abbrev pub holds : Bytes → Option HashEntry → Bool
holds k none = false
holds k (some e) = equal (text e.key) k

pub slot_matches-holds :
    {size : ℕ} {table : Slots} (key : Bytes) (i : ℕ)
    → IsTable size table
    → terminated key ≡ true
    → slot_matches (slot table i) key ≡ ok (holds (text key) (slot table i))
unfolding slot_matches
slot_matches-holds {table} key i is closed = at (slot table i) (λ e h. is.keys i h)
  where
    at :
        (s : Option HashEntry)
        → ((e : HashEntry) → s ≡ some e → terminated e.key ≡ true)
        → slot_matches s key ≡ ok (holds (text key) s)
    at none _ = refl
    at (some e) t = strcmp_equal-text e.key key (t e refl) closed
