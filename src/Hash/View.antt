-- ===== src/Hash/View.antt =====
-- The table as a finite map from key texts to values, and how a write of one slot changes it.
use orb_weaver.Hash.Table.{slot, IsTable, holds}
use orb_weaver.Hash.{HashEntry, Slots}
use orb_weaver.Memory.Text.{text, equal, equal_iff}
use orb_weaver.Memory.{Bytes}
use orb_weaver.Prelude.{
  ℕ, zero, suc, ◌+◌, ◌≤◌, ◌<◌, ◌≡◌, ◌≢◌, refl, ap, true, Option, none, some, [], ◌∷◌, arith,
  if◌then◌else◌, length, set, replicate, ◌*◌, ◌∙◌, sym,
}

-- The value in the first slot that holds the text.
unfoldable pub view : Bytes → Slots → Option Bytes
view k [] = none
view k (none ∷ t) = view k t
view k (some e ∷ t) = if equal (text e.key) k then some e.value else view k t

-- How many slots hold the text.
unfoldable pub count : Bytes → Slots → ℕ
count k [] = 0
count k (s ∷ t) = (if holds k s then 1 else 0) + count k t

-- How many slots hold an entry.
unfoldable pub used : Slots → ℕ
used [] = 0
used (none ∷ t) = used t
used (some e ∷ t) = suc (used t)

-- A well-formed table in which no key occurs twice.
pub record IsMap (n : ℕ) (table : Slots) : Type 0 where
  pub well_formed : IsTable (n * 2) table
  pub distinct : (k : Bytes) → count k table ≤ 1

equal_same : (a b c : Bytes) → equal a b ≡ true → equal a c ≡ true → equal b c ≡ true
equal_same a b c p q = (equal_iff b c).1 (sym ((equal_iff a b).0 p) ∙ (equal_iff a c).0 q)

pub view-eq-none : (k : Bytes) (t : Slots) → count k t ≡ 0 → view k t ≡ none
unfolding view count
view-eq-none k [] h = refl
view-eq-none k (none ∷ t) h = view-eq-none k t (omega arith)
view-eq-none k (some e ∷ t) h = ground (arith, view-eq-none k t)

pub count-eq-zero : (k : Bytes) (t : Slots) → view k t ≡ none → count k t ≡ 0
unfolding view count
count-eq-zero k [] h = refl
count-eq-zero k (none ∷ t) h = omega (arith, count-eq-zero k t h)
count-eq-zero k (some e ∷ t) h = ground (arith, count-eq-zero k t)

-- A text that no slot holds is not in the map.
pub view-absent :
    (k : Bytes) (t : Slots)
    → ((j : ℕ) (e : HashEntry) → slot t j ≡ some e → text e.key ≢ k)
    → view k t ≡ none
unfolding view
view-absent k [] h = refl
view-absent k (none ∷ t) h = view-absent k t (λ j e. h (suc j) e)
view-absent k (some e ∷ t) h =
    ground (arith, h 0 e refl, equal_iff (text e.key) k, view-absent k t (λ j e. h (suc j) e))

count-pos : (t : Slots) (i : ℕ) (e : HashEntry) → slot t i ≡ some e → 0 < count (text e.key) t
unfolding count
count-pos [] i e h = cc
count-pos (s ∷ t) zero e h = rw h (rw ((equal_iff (text e.key) (text e.key)).1 refl) (omega arith))
count-pos (s ∷ t) (suc i) e h = omega (arith, count-pos t i e h)

-- A slot that holds the text decides the map, if no other slot holds it.
pub view-slot :
    (k : Bytes) (t : Slots) (i : ℕ) (e : HashEntry)
    → count k t ≤ 1
    → slot t i ≡ some e
    → text e.key ≡ k
    → view k t ≡ some e.value
unfolding view count
view-slot k [] i e one h same = cc
view-slot k (none ∷ t) zero e one h same = cc
view-slot k (none ∷ t) (suc i) e one h same = view-slot k t i e (omega arith) h same
view-slot k (some d ∷ t) zero e one h same = ground (arith, equal_iff (text e.key) k)
view-slot k (some d ∷ t) (suc i) e one h same =
    ground (arith, view-slot k t i e, rw same at (count-pos t i e h))

module _ (q : Bytes) where
  -- Filling an empty slot with a new key.
  pub view-fill :
      (t : Slots) (i : ℕ) (e : HashEntry)
      → i < length t
      → slot t i ≡ none
      → count (text e.key) t ≡ 0
      → view q (set t i (some e)) ≡ (if equal (text e.key) q then some e.value else view q t)
  unfolding view count
  view-fill [] i e lt h new = absurd (omega arith)
  view-fill (s ∷ t) zero e lt h new = rw h
  view-fill (none ∷ t) (suc i) e lt h new = view-fill t i e (omega arith) h (omega arith)
  view-fill (some d ∷ t) (suc i) e lt h new = ground (
    arith,
    view-fill t i e,
    equal_iff (text d.key) q,
    equal_iff (text e.key) q,
    equal_iff (text d.key) (text e.key),
  )

  -- Clearing the one slot that holds a key.
  pub view-clear :
      (t : Slots) (i : ℕ) (e : HashEntry)
      → slot t i ≡ some e
      → count (text e.key) t ≤ 1
      → view q (set t i none) ≡ (if equal (text e.key) q then none else view q t)
  unfolding view count
  view-clear [] i e h one = cc
  view-clear (s ∷ t) zero e h one = rw h (
      ground
        (arith, equal_iff (text e.key) q, equal_iff (text e.key) (text e.key), view-eq-none q t))
  view-clear (none ∷ t) (suc i) e h one = view-clear t i e h (omega arith)
  view-clear (some d ∷ t) (suc i) e h one = ground (
    arith,
    view-clear t i e h,
    count-pos t i e h,
    equal_iff (text d.key) q,
    equal_iff (text e.key) q,
    equal_iff (text d.key) (text e.key),
  )

  pub count-fill :
      (t : Slots) (i : ℕ) (e : HashEntry)
      → i < length t
      → slot t i ≡ none
      → count q (set t i (some e)) ≡ (if equal (text e.key) q then 1 else 0) + count q t
  unfolding count
  count-fill [] i e lt h = absurd (omega arith)
  count-fill (s ∷ t) zero e lt h = rw h (omega arith)
  count-fill (s ∷ t) (suc i) e lt h = omega (arith, count-fill t i e (omega arith) h)

  pub count-clear-le : (t : Slots) (i : ℕ) → count q (set t i none) ≤ count q t
  unfolding count
  count-clear-le [] i = omega arith
  count-clear-le (s ∷ t) zero = omega arith
  count-clear-le (s ∷ t) (suc i) = omega (arith, count-clear-le t i)

  pub view-replicate :
      (n : ℕ) → (view q (replicate n none) ≡ none) × (count q (replicate n none) ≡ 0)
  unfolding view count
  view-replicate zero = (refl, refl)
  view-replicate (suc n) = ((view-replicate n).0, omega (arith, (view-replicate n).1))

pub used-replicate : (n : ℕ) → used (replicate n none) ≡ 0
unfolding used
used-replicate zero = refl
used-replicate (suc n) = used-replicate n

pub used-fill :
    (t : Slots) (i : ℕ) (e : HashEntry)
    → i < length t
    → slot t i ≡ none
    → used (set t i (some e)) ≡ used t + 1
unfolding used
used-fill [] i e lt h = absurd (omega arith)
used-fill (s ∷ t) zero e lt h = rw h (omega arith)
used-fill (none ∷ t) (suc i) e lt h = used-fill t i e (omega arith) h
used-fill (some d ∷ t) (suc i) e lt h = omega (arith, used-fill t i e (omega arith) h)

pub used-clear :
    (t : Slots) (i : ℕ) (e : HashEntry) → slot t i ≡ some e → used (set t i none) + 1 ≡ used t
unfolding used
used-clear [] i e h = cc
used-clear (s ∷ t) zero e h = rw h (omega arith)
used-clear (none ∷ t) (suc i) e h = used-clear t i e h
used-clear (some d ∷ t) (suc i) e h = omega (arith, used-clear t i e h)

-- Without an empty slot all slots are used.
used-full : (t : Slots) → ((j : ℕ) → j < length t → slot t j ≢ none) → used t ≡ length t
unfolding used
used-full [] h = refl
used-full (none ∷ t) h = absurd (h 0 (omega arith) refl)
used-full (some d ∷ t) h = ap suc (used-full t (λ j lt. h (suc j) (omega arith)))

pub used-full_but_zero :
    (t : Slots) → ((j : ℕ) → 0 < j → j < length t → slot t j ≢ none) → length t ≤ used t + 1
unfolding used
used-full_but_zero [] h = omega arith
used-full_but_zero (none ∷ t) h =
    omega (arith, used-full t (λ j lt. h (suc j) (omega arith) (omega arith)))
used-full_but_zero (some d ∷ t) h =
    omega (arith, used-full t (λ j lt. h (suc j) (omega arith) (omega arith)))
