-- ===== src/Hash/Operations.antt =====
-- What adding, fetching and removing do to the slots, on every branch behind the `NULL` tests.
use orb_weaver.Hash.Index.{generate_hash_index-bounds}
use orb_weaver.Hash.Locate.{Absent, holds-some, absent, locate_lem}
use orb_weaver.Hash.Probe.{Outcome, read-slot, empty_slot_lem}
use orb_weaver.Hash.Table.{slot, IsTable, holds}
use orb_weaver.Hash.{
  HashEntry, Slots, make_entry, store_entry, clear_slot, fetch_slot, Added, added, add_entry,
  hash_add_entry, hash_remove_entry, hash_fetch_entry, generate_hash_index,
}
use orb_weaver.Memory.Text.{text, terminated, write-set, copy-take, length-text-le}
use orb_weaver.Memory.{Bytes}
use orb_weaver.Prelude.{
  ℕ, ◌*◌, ◌^◌, ◌%◌, ◌≤◌, ◌<◌, ◌≡◌, ◌≢◌, ◌⊎◌, inl, inr, refl, Bool, true, false, ◌||◌, Option, none,
  some, [], ◌∷◌, ◌++◌, arith, ok, ◌>>=◌, Returns, leb, ◌==◌, Bool-cases, length, set, take,
}

-- A C string of `key_size` characters, at least one.
pub record IsKey (key : Bytes) (key_size : ℕ) : Type 0 where
  pub closed : terminated key ≡ true
  pub size : key_size ≡ length (text key)
  pub pos : 0 < key_size

-- The entry that is stored.
abbrev pub entry_of : Bytes → ℕ → Bytes → ℕ → HashEntry
entry_of key key_size value value_size = record {
  key_size = key_size;
  value_size = value_size;
  key = take key_size key ++ 0 ∷ [];
  value = take value_size value ++ 0 ∷ [];
}

-- What `hash_add_entry` leaves: the entry in a slot that was empty, or the table as it was, where
-- `calloc` failed or no slot is empty.
abbrev pub Stores : Bool → Slots → ℕ → HashEntry → Added → Type 0
Stores calloc table size entry r =
    ((i : ℕ) × (0 < i)
      × (i < size)
      × (slot table i ≡ none)
      × (calloc ≡ true)
      × (r ≡ added true (set table i (some entry)) i))
    ⊎ (((r.done ≡ false) × (r.table ≡ some table))
        × ((calloc ≡ false) ⊎ ((j : ℕ) → 0 < j → j < size → slot table j ≢ none)))

-- What `hash_fetch_entry` returns: the value of a slot that holds the key, or nothing where no slot
-- holds it.
abbrev pub Finds : Bytes → Slots → ℕ → Bytes → Bool × Option Bytes → Type 0
Finds k table size old r =
    ((i : ℕ) × (e : HashEntry) × (0 < i)
      × (i < size)
      × (slot table i ≡ some e)
      × (text e.key ≡ k)
      × (r ≡ (true, some e.value)))
    ⊎ ((r ≡ (false, some old)) × Absent k table)

-- What `hash_remove_entry` leaves: one slot that held the key is emptied, or the table is as it was
-- and no slot holds the key.
abbrev pub Removes : Bytes → Slots → ℕ → Bool × Option Slots → Type 0
Removes k table size r =
    ((i : ℕ) × (e : HashEntry) × (0 < i)
      × (i < size)
      × (slot table i ≡ some e)
      × (text e.key ≡ k)
      × (r ≡ (true, some (set table i none))))
    ⊎ ((r ≡ (false, some table)) × Absent k table)

module _ (n : ℕ) (table : Slots) (is : IsTable (n * 2) table) (small : n * 2 < 2 ^ 64) (key : Bytes)
    (key_size : ℕ) (k : IsKey key key_size) where
  hashed :
      (h : ℕ) × (generate_hash_index (some key) key_size (n * 2) ≡ ok (some h))
      × (0 < h)
      × (h < n * 2)
  hashed =
      generate_hash_index-bounds key key_size (n * 2) k.pos
        (omega (arith, k.size, length-text-le key)) is.two

  doubled : n * 2 % 2 ^ 64 ≡ n * 2
  doubled = omega arith

  given : (key_size == 0) ≡ false
  given = let p = k.pos in ground arith

  nonempty : (n == 0) ≡ false
  nonempty = let p = is.two in ground arith

  in_range : (h : ℕ) → 0 < h → h < n * 2 → (leb (n * 2) h || h == 0) ≡ false
  in_range h p q = ground arith

  in_range' : (h : ℕ) → 0 < h → h < n * 2 → (h == 0 || leb (n * 2) h) ≡ false
  in_range' h p q = ground arith

  module _ (calloc : Bool) (value : Bytes) (value_size : ℕ) (fits : value_size ≤ length value) where
    store_entry-Stores :
        (h : ℕ) (r : Option ℕ)
        → Outcome (λ j. slot table j ≡ none) (λ _. Unit) (n * 2) r
        → Returns
            (store_entry calloc key key_size value value_size table h r)
            (Stores calloc table (n * 2) (entry_of key key_size value value_size))
    unfolding store_entry make_entry
    store_entry-Stores h none o =
        (added false table h, refl, inr ((refl, refl), inr (λ j p q. o j p q tt)))
    store_entry-Stores h (some i) (p, q, e) = elim (Bool-cases calloc) [
      | inr failed ↦ (added false table i, rw failed, inr ((refl, refl), inl failed))
      | inl got ↦ (
        added true (set table i (some (entry_of key key_size value value_size))) i,
        rw (
          got,
          copy-take key key_size (omega (arith, k.size, length-text-le key)),
          copy-take value value_size fits,
          write-set table i (some (entry_of key key_size value value_size))
              (omega (arith, is.width)),
        ),
        inl (i, p, q, e, got, refl),
      )
    ]

  fetch_slot-Finds :
      (old : Bytes) (r : Option ℕ)
      → Outcome (λ j. holds (text key) (slot table j) ≡ true) (λ _. Unit) (n * 2) r
      → Returns (fetch_slot old table r) (Finds (text key) table (n * 2) old)
  unfolding fetch_slot
  fetch_slot-Finds old none o = ((false, some old), refl, inr (refl, absent is key k.closed o))
  fetch_slot-Finds old (some i) (p, q, hit) =
      let (e, stored, same) = holds-some (text key) (slot table i) hit in
      ((true, some e.value), rw (read-slot is i q, stored), inl (i, e, p, q, stored, same, refl))

  clear_slot-Removes :
      (r : Option ℕ)
      → Outcome (λ j. holds (text key) (slot table j) ≡ true) (λ _. Unit) (n * 2) r
      → Returns (clear_slot table r) (Removes (text key) table (n * 2))
  unfolding clear_slot
  clear_slot-Removes none o = ((false, some table), refl, inr (refl, absent is key k.closed o))
  clear_slot-Removes (some i) (p, q, hit) =
      let (e, stored, same) = holds-some (text key) (slot table i) hit in
      (
        (true, some (set table i none)),
        rw (write-set table i none (omega (arith, is.width))),
        inl (i, e, p, q, stored, same, refl),
      )

  -- On a table of `n * 2` slots, fewer than 2^64, with a key that is a C string of its size, adding
  -- ends and stores the entry in an empty slot, or says `false` and leaves the table, which happens
  -- only where `calloc` fails or every slot but 0 is taken.
  pub hash_add_entry-Stores :
      (calloc : Bool) (value : Bytes) (value_size index : ℕ)
      → 0 < value_size
      → value_size ≤ length value
      → Returns
          (hash_add_entry calloc
            (some key)
            key_size
            (some value)
            value_size
            (some table)
            n
            (some index))
          (Stores calloc table (n * 2) (entry_of key key_size value value_size))
  unfolding hash_add_entry add_entry
  hash_add_entry-Stores calloc value value_size index pos fits =
      let (h, run, p, q) = hashed in
      let (r, found, o) = empty_slot_lem is h p q in
      rw (given, value_given, nonempty, doubled, run, ◌>>=◌, doubled, in_range h p q, found)
        (store_entry-Stores calloc value value_size fits h r o)
    where
      value_given : (value_size == 0) ≡ false
      value_given = ground arith

  -- On a table of `n * 2` slots, fewer than 2^64, with a key that is a C string of its size,
  -- fetching ends: it returns `true` and the value of a slot that holds the key, or `false`,
  -- `*value` as it was, and then no slot holds the key.
  pub hash_fetch_entry-Finds :
      (old : Bytes)
      → Returns
          (hash_fetch_entry (some key) key_size (some table) n (some old))
          (Finds (text key) table (n * 2) old)
  unfolding hash_fetch_entry
  hash_fetch_entry-Finds old =
      let (h, run, p, q) = hashed in
      let (r, found, o) = locate_lem is key k.closed h p q in
      rw (given, nonempty, doubled, run, ◌>>=◌, doubled, in_range' h p q, found)
        (fetch_slot-Finds old r o)

  -- On a table of `n * 2` slots, fewer than 2^64, with a key that is a C string of its size,
  -- removing ends: it empties a slot that held the key and returns `true`, or it returns `false`
  -- and leaves the table, in which no slot holds the key.
  pub hash_remove_entry-Removes :
      Returns
        (hash_remove_entry (some key) key_size (some table) n)
        (Removes (text key) table (n * 2))
  unfolding hash_remove_entry
  hash_remove_entry-Removes =
      let (h, run, p, q) = hashed in
      let (r, found, o) = locate_lem is key k.closed h p q in
      rw (given, nonempty, doubled, run, ◌>>=◌, doubled, in_range' h p q, found)
        (clear_slot-Removes r o)
