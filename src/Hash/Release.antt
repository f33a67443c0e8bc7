-- ===== src/Hash/Release.antt =====
-- `hash_free`. Its parameter points to the variable that holds the table, so it is an array of one
-- pointer. `*table[cursor]` is `*(table[cursor])`: it reads the pointer at `cursor` of that array,
-- and slot 0 behind it.
use orb_weaver.Hash.{HashEntry, Slots}
use orb_weaver.Memory.{read, write}
use orb_weaver.Prelude.{
  ℕ, zero, suc, ◌+◌, ◌*◌, ◌%◌, ◌^◌, ◌≤◌, ◌<◌, ◌≡◌, refl, Bool, true, false, Option, none, some,
  List, [], ◌∷◌, arith, Run, ok, fault, null_dereference, out_of_bounds, ◌>>=◌, ◌==◌, if◌then◌else◌,
}

-- `if(*table[cursor]) { free(*table[cursor]); *table[cursor] = NULL; }`
unfoldable pub free_cell : List (Option Slots) → ℕ → Run (List (Option Slots))
free_cell cells cursor = do
  pointer ← read cells cursor
  elim pointer [
    | none ↦ fault null_dereference
    | some slots ↦ do
      first ← read slots 0
      elim first [
        | none ↦ ok cells
        | some _ ↦ do slots' ← write slots 0 none; write cells cursor (some slots')
      ]
  ]

-- The loop, with the rounds left.
unfoldable pub free_loop : ℕ → ℕ → List (Option Slots) → Run (List (Option Slots))
unfolding free_cell
free_loop zero cursor cells = ok cells
free_loop (suc rounds) cursor cells = do
  cells' ← free_cell cells cursor
  free_loop rounds (cursor + 1) cells'

-- The result, and what the variable then holds.
unfoldable pub hash_free :
    Option (List (Option Slots)) → ℕ → Run (Bool × Option (List (Option Slots)))
hash_free none table_size = ok (false, none)
hash_free (some cells) table_size = do
  table ← read cells 0
  elim table [
    | none ↦ ok (false, some cells)
    | some _ ↦ if table_size == 0 then ok (false, some cells) else do
      cells' ← free_loop (table_size * 2 % 2 ^ 64) 0 cells
      freed ← write cells' 0 none
      ok (true, some freed)
  ]

free_loop_two :
    (rounds : ℕ) (s : Option HashEntry) (t : Slots)
    → 2 ≤ rounds
    → free_loop rounds 0 (some (s ∷ t) ∷ []) ≡ fault out_of_bounds
unfolding free_loop read write
free_loop_two zero s t two = absurd (omega arith)
free_loop_two (suc zero) s t two = absurd (omega arith)
free_loop_two (suc (suc rounds)) none t two = refl
free_loop_two (suc (suc rounds)) (some e) t two = refl

-- Given the address of the variable that holds a table of at least one slot, `hash_free` leaves
-- that variable in its second round, whatever the slots hold: it never returns.
pub hash_free_out_of_bounds :
    (n : ℕ) (s : Option HashEntry) (t : Slots)
    → 0 < n
    → n * 2 < 2 ^ 64
    → hash_free (some (some (s ∷ t) ∷ [])) n ≡ fault out_of_bounds
unfolding hash_free read
hash_free_out_of_bounds n s t pos small =
    let nonempty : (n == 0) ≡ false = ground arith in
    rw nonempty (rw (free_loop_two (n * 2 % 2 ^ 64) s t (omega arith)))
