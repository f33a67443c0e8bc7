-- ===== src/Hash/Locate.antt =====
-- The slot that removing and fetching settle on.
use orb_weaver.Hash.Probe.{Outcome, read-slot, hash_seek_entry_lem}
use orb_weaver.Hash.Table.{slot, IsTable, holds, slot_matches-holds}
use orb_weaver.Hash.{HashEntry, Slots, locate}
use orb_weaver.Memory.Text.{text, terminated, equal_iff}
use orb_weaver.Memory.{Bytes}
use native.Mathlib.Decide.{dec_lt}
use orb_weaver.Prelude.{
  ℕ, zero, suc, ◌≤◌, ◌<◌, ◌≡◌, ◌≢◌, inl, inr, refl, true, ◌||◌, Option, none, some, [], ◌∷◌, arith,
  ok, Returns, leb, ◌==◌, if◌then◌else◌, Bool-cases, length,
}

-- No slot holds the text `k`.
abbrev pub Absent : Bytes → Slots → Type 0
Absent k table = (j : ℕ) (e : HashEntry) → slot table j ≡ some e → text e.key ≢ k

pub holds-some :
    (k : Bytes) (s : Option HashEntry)
    → holds k s ≡ true
    → (e : HashEntry) × (s ≡ some e) × (text e.key ≡ k)
holds-some k none h = cc
holds-some k (some e) h = (e, refl, (equal_iff (text e.key) k).0 h)

module _ {size : ℕ} {table : Slots} (is : IsTable size table) where
  slot-beyond : (j : ℕ) → size ≤ j → slot table j ≡ none
  slot-beyond j h = beyond table j (omega (arith, is.width))
    where
      beyond : (t : Slots) (j : ℕ) → length t ≤ j → slot t j ≡ none
      beyond [] j h = refl
      beyond (s ∷ t) zero h = absurd (omega arith)
      beyond (s ∷ t) (suc j) h = beyond t j (omega arith)

  module _ (key : Bytes) (closed : terminated key ≡ true) where
    abbrev Hit : ℕ → Type 0
    Hit j = holds (text key) (slot table j) ≡ true

    pub absent : ((j : ℕ) → 0 < j → j < size → Unit {0} → ¬ Hit j) → Absent (text key) table
    absent miss zero e stored same = cc (is.slot_zero)
    absent miss (suc j) e stored same = elim (dec_lt (suc j) size) [
      | yes lt ↦
          miss (suc j) (omega arith) lt tt (rw stored ((equal_iff (text e.key) (text key)).1 same))
      | no over ↦ cc (slot-beyond (suc j) (omega arith))
    ]

    pub locate_lem :
        (h : ℕ)
        → 0 < h
        → h < size
        → Returns (locate key table size h) (Outcome Hit (λ _. Unit) size)
    unfolding locate
    locate_lem h pos lt =
        rw (read-slot is h lt, slot_matches-holds key h is closed)
          (elim (Bool-cases (holds (text key) (slot table h))) [
            | inl yea ↦ (some h, rw yea, (pos, lt, yea))
            | inr nay ↦ rw nay (
                let (r, run, o) = hash_seek_entry_lem is key closed h pos lt in rw run (settle r o))
          ])
      where
        settle :
            (r : Option ℕ)
            → Outcome Hit (λ _. Unit) size r
            → Returns
                (elim r [
                  | none ↦ ok none
                  | some i ↦ if i == 0 || leb size i then ok none else ok (some i)
                ])
                (Outcome Hit (λ _. Unit) size)
        settle none o = (none, refl, o)
        settle (some i) (p, q, hit) = (some i, ground arith, (p, q, hit))
