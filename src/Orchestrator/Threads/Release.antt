-- ===== src/Orchestrator/Threads/Release.antt =====
-- `init_thread_handler` where a thread cannot be created.
use orb_weaver.ErrorHandler.{validate_syscall}
use orb_weaver.Orchestrator.Threads.{
  allocated, freed, Threads, free_threads, free_thread_memory, ThreadCalls, create_loop,
  init_thread_handler,
}
use orb_weaver.Prelude.{
  ℕ, zero, suc, ◌+◌, ◌≡◌, refl, Bool, true, false, ◌&&◌, arith, ok, fault, invalid_free, Bool-cases,
  inl, inr,
}

-- All of the `left` threads from `cursor` on are created.
abbrev pub creates : ThreadCalls → ℕ → ℕ → Bool
creates calls zero cursor = true
creates calls (suc left) cursor =
    validate_syscall (calls.create cursor) true
    && (calls.thread_id_set cursor && creates calls left (cursor + 1))

pub create_loop-fails :
    (calls : ThreadCalls) (left cursor : ℕ) (t : Threads)
    → t.threads ≡ allocated
    → creates calls left cursor ≡ false
    → create_loop calls left cursor t ≡ ok (false, record t { threads = freed })
unfolding create_loop free_threads
create_loop-fails calls zero cursor t at h = absurd (ground arith)
create_loop-fails calls (suc left) cursor t at h =
    elim (Bool-cases (validate_syscall (calls.create cursor) true)) [
      | inr failed ↦ rw (failed, at)
      | inl fine ↦ elim (Bool-cases (calls.thread_id_set cursor)) [
        | inr unset ↦ rw (fine, unset, at)
        | inl set ↦ rw (fine, set) (create_loop-fails calls left (cursor + 1) t at (ground arith))
      ]
    ]

-- If the locks and the block of the threads are set up, and one of the `num_cores` threads cannot be
-- created, `init_thread_handler` returns `false` and leaves `threads` at a block that it has freed;
-- the next call of `free_thread_memory` frees that block again.
pub init_thread_handler-freed :
    (calls : ThreadCalls) (num_cores : ℕ) (t : Threads)
    → calls.thread_lock_init ≡ 0
    → calls.enqueue_lock_init ≡ 0
    → calls.cond_init ≡ 0
    → calls.threads_memory ≡ true
    → creates calls num_cores 0 ≡ false
    → (t' : Threads) × (init_thread_handler calls num_cores t ≡ ok (false, t'))
      × (free_thread_memory t' ≡ fault invalid_free)
unfolding init_thread_handler free_thread_memory free_threads
init_thread_handler-freed calls num_cores t first second third memory fails = (
  record t { threads = freed },
  rw (
    first,
    second,
    third,
    memory,
    create_loop-fails calls num_cores 0 (record t { threads = allocated }) refl fails,
  ),
  refl,
)
