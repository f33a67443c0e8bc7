-- ===== src/Hash/Probe.antt =====
-- Both probe loops visit every slot but 0, whatever slot they start from.
use orb_weaver.Hash.Table.{slot, IsTable, holds, slot_matches-holds}
use orb_weaver.Hash.{Slots, slot_matches, seek_loop, hash_seek_entry, empty_loop, empty_slot}
use orb_weaver.Memory.Text.{text, terminated, read-get_or}
use orb_weaver.Memory.{Bytes, read}
use native.Mathlib.Decide.{ℕ_discrete}
use orb_weaver.Prelude.{
  ℕ, zero, suc, ◌+◌, ◌-◌, ◌≤◌, ◌<◌, ◌≡◌, ◌⊎◌, inl, inr, true, Option, none, some, arith, Run, ok,
  ◌>>=◌, Returns, ltb, leb, if◌then◌else◌, Bool-cases, Option-cases,
}

-- A slot that satisfies `P`, or none of those that are left to visit.
abbrev pub Outcome : (ℕ → Type 0) → (ℕ → Type 0) → ℕ → Option ℕ → Type 0
Outcome P Left size (some i) = (0 < i) × (i < size) × P i
Outcome P Left size none = (j : ℕ) → 0 < j → j < size → Left j → ¬ P j

weaken :
    (P Left Left' : ℕ → Type 0) (size : ℕ) (r : Option ℕ)
    → ((j : ℕ) → 0 < j → j < size → Left j → ¬ P j ⊎ Left' j)
    → Outcome P Left' size r
    → Outcome P Left size r
weaken P Left Left' size (some i) step o = o
weaken P Left Left' size none step o =
    λ j pos lt left. elim (step j pos lt left) [ inl miss ↦ miss | inr left' ↦ o j pos lt left' ]

module _ {size : ℕ} {table : Slots} (is : IsTable size table) where
  pub read-slot : (i : ℕ) → i < size → read table i ≡ ok (slot table i)
  read-slot i h = read-get_or table i none (omega (arith, is.width))

  module _ (key : Bytes) (closed : terminated key ≡ true) where
    abbrev Hit : ℕ → Type 0
    Hit j = holds (text key) (slot table j) ≡ true

    -- The slots that the seek loop has still to visit, after it looked at `probe`.
    abbrev SeekLeft : ℕ → ℕ → ℕ → Type 0
    SeekLeft probe step j = (j ≤ probe → step + j ≤ probe) × (probe < j → step + j ≤ size + probe)

    -- One slot is looked at, and then the rest.
    visit :
        (Left Left' : ℕ → Type 0) (i : ℕ) (rest : Run (Option ℕ))
        → 0 < i
        → i < size
        → ((j : ℕ) → 0 < j → j < size → Left j → (j ≡ i) ⊎ Left' j)
        → Returns rest (Outcome Hit Left' size)
        → Returns
            (read table i
              >>= (λ entry. slot_matches entry key >>= (λ hit. if hit then ok (some i) else rest)))
            (Outcome Hit Left size)
    visit Left Left' i rest pos lt step (r, run, o) =
        rw (read-slot i lt, slot_matches-holds key i is closed)
          (elim (Bool-cases (holds (text key) (slot table i))) [
            | inl yea ↦ (some i, rw yea, (pos, lt, yea))
            | inr nay ↦ (
              r,
              rw nay run,
              weaken Hit Left Left' size r
                  (λ j p q left. elim (step j p q left) [
                    | inl e ↦ inl (rw e (ground arith))
                    | inr l ↦ inr l
                  ])
                  o,
            )
          ])

    seek_loop_lem :
        (fuel probe step : ℕ)
        → size - step < fuel
        → 0 < probe
        → probe < size
        → Returns
            (seek_loop fuel key table size probe step)
            (Outcome Hit (SeekLeft probe step) size)
    unfolding seek_loop
    seek_loop_lem zero probe step enough pos lt = absurd (omega arith)
    seek_loop_lem (suc fuel) probe step enough pos lt = elim (Bool-cases (ltb step size)) [
      | inr over ↦ (none, rw over, λ j p q left. absurd (ground arith))
      | inl more ↦ elim (Bool-cases (leb size (probe + 1))) [
        | inl wraps ↦
            rw (more, wraps)
              (visit (SeekLeft probe step) (SeekLeft 1 (step + 1 + 1)) 1 _ (omega arith)
                (omega arith)
                (λ j p q left. elim (ℕ_discrete j 1) [
                  | yes e ↦ inl e
                  | no n ↦ inr (ground arith, ground arith)
                ])
                (seek_loop_lem fuel 1 (step + 1 + 1) (ground arith) (omega arith) (omega arith)))
        | inr stays ↦
            rw (more, stays)
              (visit (SeekLeft probe step) (SeekLeft (probe + 1) (step + 1)) (probe + 1) _
                (omega arith) (ground arith)
                (λ j p q left. elim (ℕ_discrete j (probe + 1)) [
                  | yes e ↦ inl e
                  | no n ↦ inr (ground arith, ground arith)
                ])
                (seek_loop_lem fuel (probe + 1) (step + 1) (ground arith) (omega arith)
                  (ground arith)))
      ]
    ]

    -- From slot `h` the seek loop finds a slot that holds the key, or no slot but 0 holds it.
    pub hash_seek_entry_lem :
        (h : ℕ)
        → 0 < h
        → h < size
        → Returns (hash_seek_entry key table size h) (Outcome Hit (λ _. Unit) size)
    unfolding hash_seek_entry
    hash_seek_entry_lem h pos lt =
        let (r, run, o) = seek_loop_lem (size + 1) h 0 (omega arith) pos lt in
        (
          r,
          run,
          weaken Hit (λ _. Unit) (SeekLeft h 0) size r (λ j p q _. inr (ground arith, ground arith))
              o,
        )

  abbrev Empty : ℕ → Type 0
  Empty j = slot table j ≡ none

  -- The slots that the loop for an empty slot has still to visit, `probe` among them.
  abbrev EmptyLeft : ℕ → ℕ → ℕ → Type 0
  EmptyLeft probe step j = (j < probe → step + j < probe) × (probe ≤ j → step + j < size + probe)

  empty_loop_lem :
      (fuel probe step : ℕ)
      → size - step < fuel
      → 0 < probe
      → probe < size
      → Returns (empty_loop fuel table size probe step) (Outcome Empty (EmptyLeft probe step) size)
  unfolding empty_loop
  empty_loop_lem zero probe step enough pos lt = absurd (omega arith)
  empty_loop_lem (suc fuel) probe step enough pos lt =
      rw (read-slot probe lt) (elim (Option-cases (slot table probe)) [
        | inl e ↦ (some probe, rw e, (pos, lt, e))
        | inr (x, e) ↦
            let taken : ¬ Empty probe = λ h. cc in
            elim (Bool-cases (leb size (step + 1))) [
              | inl over ↦ (
                none,
                rw (e, over),
                λ j p q left. let same : j ≡ probe = ground arith in rw same taken,
              )
              | inr more ↦ elim (Bool-cases (leb size (probe + 1))) [
                | inl wraps ↦
                    let (r, run, o) =
                      empty_loop_lem fuel 1 (step + 2) (ground arith) (omega arith) (omega arith) in
                    (
                      r,
                      rw (e, more, wraps) run,
                      weaken Empty (EmptyLeft probe step) (EmptyLeft 1 (step + 2)) size r
                          (λ j p q left. elim (ℕ_discrete j probe) [
                            | yes same ↦ inl (rw same taken)
                            | no n ↦ inr (ground arith, ground arith)
                          ])
                          o,
                    )
                | inr stays ↦
                    let (r, run, o) =
                      empty_loop_lem fuel (probe + 1) (step + 1) (ground arith) (omega arith)
                        (ground arith) in
                    (
                      r,
                      rw (e, more, stays) run,
                      weaken Empty (EmptyLeft probe step) (EmptyLeft (probe + 1) (step + 1)) size r
                          (λ j p q left. elim (ℕ_discrete j probe) [
                            | yes same ↦ inl (rw same taken)
                            | no n ↦ inr (ground arith, ground arith)
                          ])
                          o,
                    )
              ]
            ]
      ])

  -- From slot `h` the collision logic finds an empty slot, or no slot but 0 is empty.
  pub empty_slot_lem :
      (h : ℕ)
      → 0 < h
      → h < size
      → Returns (empty_slot table size h) (Outcome Empty (λ _. Unit) size)
  unfolding empty_slot
  empty_slot_lem h pos lt = rw (read-slot h lt) (elim (Option-cases (slot table h)) [
    | inl e ↦ (some h, rw e, (pos, lt, e))
    | inr (x, e) ↦
        let (r, run, o) = empty_loop_lem (size + 1) h 0 (omega arith) pos lt in
        (
          r,
          rw e run,
          weaken Empty (λ _. Unit) (EmptyLeft h 0) size r
              (λ j p q _. inr (ground arith, ground arith)) o,
        )
  ])
