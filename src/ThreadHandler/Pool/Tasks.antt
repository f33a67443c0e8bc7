-- ===== src/ThreadHandler/Pool/Tasks.antt =====
-- What the threads take out of the queue.
use orb_weaver.Prelude.{
  ℕ, ◌≡◌, ◌⊎◌, inl, inr, refl, ap, Bool, true, false, none, [], ◌∷◌, ◌++◌, arith, Run, ok, ℤ,
  negsuc, to_int, ◌==◌, ==_iff, Bool-cases,
}
use orb_weaver.ThreadHandler.Queue.Chain.{Cells, IsQueue}
use orb_weaver.ThreadHandler.Queue.Enqueue.{enqueue_task-append}
use orb_weaver.ThreadHandler.Queue.Pull.{answer, pulled, pull_next_task-cons}
use orb_weaver.ThreadHandler.Queue.Stale.{
  IsStale, After, enqueue_task-IsStale, pull_next_task-IsStale,
}
use orb_weaver.ThreadHandler.Queue.Refused.{enqueue_task-null}
use orb_weaver.ThreadHandler.Queue.{Pointer, null, Queue, enqueue_task, pull_next_task}

-- The connections `cells` can be reached from the placeholder.
abbrev pub Holds : Queue → Cells → Type 0
Holds q cells =
    IsQueue q cells ⊎ ((a : Pointer) × (d : ℤ) × (cells ≡ (a, d) ∷ []) × IsStale q ((a, d) ∷ []))

After-Holds : (q : Queue) (cells : Cells) → After q cells → Holds q cells
After-Holds q [] after = inl after
After-Holds q ((a, d) ∷ []) after = inr (a, d, refl, after)
After-Holds q (x ∷ y ∷ cells) after = inl after

-- What the caller of `_pull_next_task` gets for a cell.
abbrev pub given : Pointer × ℤ → ℤ
given cell = pulled cell.1

abbrev pub has_task : Cells → Bool
has_task [] = false
has_task (x ∷ cells) = true

same_run : {A : Type 0} {r : Run A} {x y : A} → r ≡ ok x → r ≡ ok y → x ≡ y
same_run e f = cc

pub pull-Holds :
    (q q' : Queue) (cells : Cells) (b : Bool) (d : ℤ)
    → Holds q cells
    → has_task cells ≡ true
    → pull_next_task (negsuc 0) q ≡ ok ((b, d), q')
    → (x : Pointer × ℤ) × (rest : Cells) × (cells ≡ x ∷ rest)
      × ((b, d) ≡ answer x.1)
      × Holds q' rest
pull-Holds q q' [] b d h more run = absurd (ground arith)
pull-Holds q q' ((a, e) ∷ rest) b d (inl is) more run =
    let (u, run', gone, after) = pull_next_task-cons q a e rest (negsuc 0) is in
    let same = same_run run run' in
    ((a, e), rest, refl, ap (λ r. r.0) same, rw (ap (λ r. r.1) same) (After-Holds u rest after))
pull-Holds q q' (x ∷ rest) b d (inr (a, e, single, stale)) more run =
    let stuck = pull_next_task-IsStale q a e (negsuc 0) stale in absurd (ground arith)

pub enqueue-Holds :
    (q q' : Queue) (cells : Cells) (fresh : Pointer) (client : ℕ)
    → Holds q cells
    → (fresh ≡ null) ⊎ (q.heap fresh ≡ none)
    → enqueue_task fresh client q ≡ ok (true, q')
    → Holds q' (cells ++ (fresh, to_int client) ∷ [])
enqueue-Holds q q' cells fresh client (inr (a, d, single, stale)) new run =
    let stuck = enqueue_task-IsStale q ((a, d) ∷ []) fresh client stale in absurd (ground arith)
enqueue-Holds q q' cells fresh client (inl is) new run = elim new [
  | inl e ↦
      let (u, refused, _) = enqueue_task-null q cells client is in
      let refused' : enqueue_task fresh client q ≡ ok (false, u) = rw e refused in
      let same = ap (λ r. r.0) (same_run run refused') in absurd (ground arith)
  | inr unused ↦ elim (Bool-cases (fresh == null)) [
    | inl z ↦
        let (u, refused, _) = enqueue_task-null q cells client is in
        let refused' : enqueue_task fresh client q ≡ ok (false, u) =
          rw ((==_iff fresh null).0 z) refused in
        let same = ap (λ r. r.0) (same_run run refused') in absurd (ground arith)
    | inr ne ↦
        let (u, appended, is') =
          enqueue_task-append q cells fresh client is (ground arith) unused in
        inl (rw (ap (λ r. r.1) (same_run run appended)) is')
  ]
]

pub refused-Holds :
    (q q' : Queue) (cells : Cells) (fresh : Pointer) (client : ℕ)
    → Holds q cells
    → (fresh ≡ null) ⊎ (q.heap fresh ≡ none)
    → enqueue_task fresh client q ≡ ok (false, q')
    → Holds q' cells
refused-Holds q q' cells fresh client (inr (a, d, single, stale)) new run =
    let stuck = enqueue_task-IsStale q ((a, d) ∷ []) fresh client stale in absurd (ground arith)
refused-Holds q q' cells fresh client (inl is) new run = elim (Bool-cases (fresh == null)) [
  | inl z ↦
      let (u, refused, is') = enqueue_task-null q cells client is in
      let refused' : enqueue_task fresh client q ≡ ok (false, u) =
        rw ((==_iff fresh null).0 z) refused in
      inl (rw (ap (λ r. r.1) (same_run run refused')) is')
  | inr ne ↦
      let unused : q.heap fresh ≡ none = elim new [
        | inl e ↦ absurd (ground arith)
        | inr unused ↦ unused
      ] in
      let (u, appended, _) = enqueue_task-append q cells fresh client is (ground arith) unused in
      let same = ap (λ r. r.0) (same_run run appended) in absurd (ground arith)
]
