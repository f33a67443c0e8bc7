-- ===== src/Hash/Map.antt =====
-- The table refines a finite map: `hash_allocate` makes the empty map, and fetching, adding and
-- removing read, extend and restrict it.
use orb_weaver.Hash.Operations.{
  IsKey, entry_of, hash_add_entry-Stores, hash_fetch_entry-Finds, hash_remove_entry-Removes,
}
use orb_weaver.Hash.Table.{slot, IsTable}
use orb_weaver.Hash.View.{
  view, count, used, IsMap, view-absent, view-slot, view-fill, view-clear, count-fill,
  count-clear-le, count-eq-zero, view-replicate, used-replicate, used-clear, used-fill,
  used-full_but_zero,
}
use orb_weaver.Hash.{
  HashEntry, Slots, hash_add_entry, hash_fetch_entry, hash_remove_entry, hash_allocate,
}
use orb_weaver.Memory.Text.{
  text, terminated, equal, equal_iff, text-append_nul, terminated-append_nul,
}
use orb_weaver.Memory.{Bytes}
use orb_weaver.Prelude.{
  ℕ, ◌+◌, ◌*◌, ◌^◌, ◌%◌, ◌≤◌, ◌<◌, ◌≡◌, inl, inr, refl, sym, ap, ◌∙◌, Bool, true, false, Option,
  none, some, [], ◌∷◌, ◌++◌, arith, ok, Returns, if◌then◌else◌, length, set, take, take-length,
  ge→ltb, length-set, get_or-set_self, get_or-set_ne, get_or-replicate, length-replicate, replicate,
}
use mathlib.Core.Path.{subst}
use native.Mathlib.Decide.{ℕ_discrete}

-- What `*value` and the result say of a lookup.
abbrev pub fetched : Bytes → Option Bytes → Bool × Option Bytes
fetched old none = (false, some old)
fetched old (some v) = (true, some v)

abbrev pub is_some : Option Bytes → Bool
is_some none = false
is_some (some _) = true

set-IsTable :
    (size : ℕ) (t : Slots) (i : ℕ) (s : Option HashEntry)
    → IsTable size t
    → 0 < i
    → i < size
    → ((e : HashEntry) → s ≡ some e → terminated e.key ≡ true)
    → IsTable size (set t i s)
set-IsTable size t i s is pos lt closed = record {
  width = length-set t i s ∙ is.width;
  two = is.two;
  slot_zero = get_or-set_ne t i 0 s none (omega arith) ∙ is.slot_zero;
  keys = λ j {e} stored. elim (ℕ_discrete i j) [
    | yes same ↦ closed e (
        sym (get_or-set_self t i s none (omega (arith, is.width)))
        ∙ subst (λ x. slot (set t i s) x ≡ some e) (sym same) stored)
    | no other ↦ is.keys j (sym (get_or-set_ne t i j s none other) ∙ stored)
  ];
}

pub replicate-IsMap : (n : ℕ) → 2 ≤ n → IsMap n (replicate (n * 2) none)
replicate-IsMap n two = record {
  well_formed = record {
    width = length-replicate (n * 2) none;
    two = omega arith;
    slot_zero = get_or-replicate (n * 2) 0 none;
    keys = λ i {e} h. cc (get_or-replicate {A = Option HashEntry} (n * 2) i none);
  };
  distinct = λ k. omega (arith, (view-replicate k (n * 2)).1);
}

-- For two entries or more whose doubled number fits in 64 bits, and with memory from `calloc`,
-- `hash_allocate` says `true` and makes a map in which no key has a value.
pub hash_allocate-IsMap :
    (n : ℕ)
    → 2 ≤ n
    → n * 2 < 2 ^ 64
    → (t : Slots) × (hash_allocate true n none ≡ (true, some t))
      × IsMap n t
      × (used t ≡ 0)
      × ((q : Bytes) → view q t ≡ none)
unfolding hash_allocate
hash_allocate-IsMap n two small = (
  replicate (n * 2) none,
  (let wide : n * 2 % 2 ^ 64 ≡ n * 2 = omega arith in rw (ge→ltb n 2 two, wide)),
  replicate-IsMap n two,
  used-replicate (n * 2),
  λ q. (view-replicate q (n * 2)).0,
)

module _ (n : ℕ) (t : Slots) (is : IsMap n t) (small : n * 2 < 2 ^ 64) (key : Bytes) (key_size : ℕ)
    (k : IsKey key key_size) where
  -- On a map of fewer than 2^64 slots, with a key that is a C string of its size, at least one
  -- byte, `hash_fetch_entry` returns `true` and the value of the key where the key has one, and
  -- else `false`, with `*value` as it was.
  pub hash_fetch_entry-view :
      (old : Bytes)
      → hash_fetch_entry (some key) key_size (some t) n (some old)
        ≡ ok (fetched old (view (text key) t))
  hash_fetch_entry-view old =
      let (r, run, o) = hash_fetch_entry-Finds n t is.well_formed small key key_size k old in
      run
      ∙ ap ok (elim o [
        | inl (i, e, pos, lt, stored, same, result) ↦
            rw (view-slot (text key) t i e (is.distinct (text key)) stored same) result
        | inr (result, absent) ↦ rw (view-absent (text key) t absent) result
      ])

  -- On a map of fewer than 2^64 slots, with a key that is a C string of its size, at least one
  -- byte, `hash_remove_entry` says whether the key had a value; the table that it leaves is the map
  -- without that key, every other key keeps its value, and one slot less is used if the key had a
  -- value.
  pub hash_remove_entry-view : Returns (hash_remove_entry (some key) key_size (some t) n) λ r.
      (t' : Slots) × (r ≡ (is_some (view (text key) t), some t'))
      × IsMap n t'
      × (used t' + (if is_some (view (text key) t) then 1 else 0) ≡ used t)
      × ((q : Bytes) → view q t' ≡ (if equal (text key) q then none else view q t))
  hash_remove_entry-view =
      let (r, run, o) = hash_remove_entry-Removes n t is.well_formed small key key_size k in
      (
        r,
        run,
        elim o [
          | inl (i, e, pos, lt, stored, same, result) ↦ (
            set t i none,
            rw (view-slot (text key) t i e (is.distinct (text key)) stored same) result,
            record {
              well_formed = set-IsTable (n * 2) t i none is.well_formed pos lt (λ e h. cc);
              distinct = λ q. omega (arith, is.distinct q, count-clear-le q t i);
            },
            rw (view-slot (text key) t i e (is.distinct (text key)) stored same)
                (used-clear t i e stored),
            λ q. rw (← same) (view-clear q t i e stored (is.distinct (text e.key))),
          )
          | inr (result, absent) ↦ (
            t,
            rw (view-absent (text key) t absent) result,
            is,
            rw (view-absent (text key) t absent) (omega arith),
            λ q. ground (arith, equal_iff (text key) q, view-absent (text key) t absent),
          )
        ],
      )

  module _ (value : Bytes) (value_size : ℕ) (pos : 0 < value_size)
      (fits : value_size ≤ length value) where
    abbrev entry : HashEntry
    entry = entry_of key key_size value value_size

    entry_key : text entry.key ≡ text key
    entry_key =
        text-append_nul key [] key_size (omega (arith, k.size)) ∙ rw k.size (take-length (text key))

    fresh : view (text key) t ≡ none → count (text entry.key) t ≡ 0
    fresh new = rw entry_key (count-eq-zero (text key) t new)

    pub filled-IsMap :
        (i : ℕ)
        → 0 < i
        → i < n * 2
        → slot t i ≡ none
        → view (text key) t ≡ none
        → IsMap n (set t i (some entry))
    filled-IsMap i p q free new = record {
      well_formed = set-IsTable (n * 2) t i (some entry) is.well_formed p q (λ e h.
          subst (λ (d : HashEntry). terminated d.key ≡ true) {x = entry} {y = e} (cc)
            (terminated-append_nul (take key_size key) []));
      distinct = λ x. ground (
        arith,
        count-fill x t i entry (omega (arith, is.well_formed.width)) free,
        fresh new,
        is.distinct x,
        equal_iff (text entry.key) x,
      );
    }

    -- On a map of fewer than 2^64 slots with an empty slot other than slot 0, with memory, a value
    -- block of at least one byte and a key that is a C string of its size, at least one byte,
    -- `hash_add_entry` stores a key that has no value yet: the new table maps it to the copied
    -- value, closed by a 0, and every other key as before.
    pub hash_add_entry-view :
        (index : ℕ)
        → view (text key) t ≡ none
        → used t + 1 < n * 2
        → Returns
            (hash_add_entry true
              (some key)
              key_size
              (some value)
              value_size
              (some t)
              n
              (some index))
            λ r.
              (r.done ≡ true)
              × (t' : Slots) × (r.table ≡ some t')
              × IsMap n t'
              × (used t' ≡ used t + 1)
              × ((q : Bytes)
                  → view q t' ≡ (
                      if equal (text key) q
                      then some (take value_size value ++ 0 ∷ [])
                      else view q t))
    hash_add_entry-view index new room =
        let (r, run, o) =
          hash_add_entry-Stores n t is.well_formed small key key_size k true value value_size index
            pos fits in
        (
          r,
          run,
          elim o [
            | inl (i, p, q, free, got, result) ↦ rw result (
              refl,
              set t i (some entry),
              refl,
              filled-IsMap i p q free new,
              used-fill t i entry (omega (arith, is.well_formed.width)) free,
              λ x.
                  rw (view-fill x t i entry (omega (arith, is.well_formed.width)) free (fresh new))
                    (rw entry_key),
            )
            | inr (same, inl failed) ↦ cc
            | inr (same, inr full) ↦ absurd (
                omega (
                  arith,
                  is.well_formed.width,
                  used-full_but_zero t (λ j a b. full j a (omega (arith, is.well_formed.width))),
                ))
          ],
        )
