-- ===== src/PyBatch/Finish.antt =====
-- A batch that is not discarded can be waited for, and then holds on to nothing.
use metal_runtime.Batch.Methods.{Inv, commit_locked-IsSafe, commit_locked-live}
use metal_runtime.Batch.Threads.{Reach-Inv}
use metal_runtime.Batch.{CommandBatch, Completion, commit_locked, wait_finish, send}
use metal_runtime.Common.{
  ℕ, ◌≡◌, ◌≢◌, refl, arith, true, false, inl, inr, Bool-cases, Option-cases, [], none,
}
use metal_runtime.Errors.{ok}
use metal_runtime.PyBatch.Threads.{
  System, Step, Reach, Reach-sections, wait_begins, wait_ends, wait_releases,
}

commit_locked-returns :
    (b : CommandBatch) → Inv b → b.discarded ≡ false → (commit_locked b).1 ≡ ok tt
unfolding commit_locked send
commit_locked-returns b v live = elim (Option-cases b.encoder) [
  | inl closed ↦ let open_one = v.holds_encoder in absurd (ground arith)
  | inr (e, opened) ↦ elim (Bool-cases b.committed) [
    | inl over ↦ rw (live, over, commit_locked) refl
    | inr fresh ↦ elim (Option-cases b.command_buffer) [
      | inl gone ↦ let held = v.holds_buffer in absurd (ground arith)
      | inr (h, held) ↦ ground arith
    ]
  ]
]

wait_finish-timed :
    (b : CommandBatch) (done : Completion)
    → Inv b
    → b.discarded ≡ false
    → (wait_finish b done).0.gpu_time ≢ none
unfolding wait_finish
wait_finish-timed b done v live = elim (Option-cases b.command_buffer) [
  | inl gone ↦ let held = v.holds_buffer in absurd (ground arith)
  | inr (h, held) ↦ elim (Option-cases b.gpu_time) [
    | inl unset ↦ rw (held, unset, wait_finish) (λ e. cc)
    | inr (t, set) ↦ rw (held, set, wait_finish) (λ e. cc)
  ]
]

module _ (owner : ℕ → ℕ) where
  -- Steps one after the other.
  pub data Runs (s : System) : System → Type 0 where
    stop : Runs s s
    next : {t u : System} → Runs s t → Step owner t u → Runs s u

  -- From every state that threads can bring a batch to, unless it is discarded, a caller of `wait` can
  -- go through all three of its steps if the GPU finishes without an error: the batch is then timed and
  -- nothing is pinned any more.
  pub Reach-finishes :
      {s : System} (elapsed : ℕ)
      → Reach owner s
      → s.py.batch.discarded ≡ false
      → (t : System) × Runs s t
        × (t.completed ≡ true)
        × (t.py.keepalive ≡ [])
        × (t.py.batch.gpu_time ≢ none)
  Reach-finishes {s} elapsed r live =
      let b = s.py.batch in
      let v = (Reach-Inv (Reach-sections owner r)).inv in
      let returns = commit_locked-returns b v live in
      let done : Completion = record { elapsed = elapsed; failed = false } in
      let inv = (commit_locked-IsSafe b v).0 in
      let after = (commit_locked-live b returns v).1 in
      (
        _,
        next (next (next stop (wait_begins returns)) (wait_ends s.waiting done refl))
            (wait_releases s.releasing refl),
        refl,
        refl,
        wait_finish-timed (commit_locked b).0 done inv after,
      )
