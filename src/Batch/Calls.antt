-- ===== src/Batch/Calls.antt =====
-- What each call of `CommandBatch` does in each state, and a whole `dispatch`.
use metal_runtime.Batch.Encode.{bound, count_from, bound-encode}
use metal_runtime.Batch.Methods.{Inv, encode-ok}
use metal_runtime.Batch
use metal_runtime.Batch.{
  Command, end_encoding, commit_buffer, CommandBatch, create, encode, send, Completion,
  commit_locked, wait_finish, destroy, dispatch,
}
use metal_runtime.Common.{
  ℕ, ◌≡◌, ◌+◌, ◌⊎◌, inl, inr, Bool, true, false, ◌||◌, Bool-cases, arith, [], ◌∷◌, ◌++◌, Option,
  none, some, if◌then◌else◌, length,
}
use metal_runtime.Dispatch.Defined.{validate-ok-lengths}
use metal_runtime.Dispatch.{ComputePipeline, Launch, validate}
use metal_runtime.Errors.{
  Error, Result, ok, throw, add_committed, add_discarded, barrier_committed, barrier_discarded,
  batch_discarded, execution_failed, Result-cases,
}

-- What an `add` that returns has sent: the encoding of a launch that passed `validate`, which binds
-- the indices 0, 1, … to the buffers and then the scalars.
abbrev pub Added : CommandBatch → Launch → Type 0
Added b l =
    (p : ComputePipeline) × (l.pipeline ≡ some p)
    × (validate l b.non_uniform b.max_threadgroup_memory ≡ ok tt)
    × ((Batch.add b l).0 ≡ record b { log = b.log ++ (encode p l b.non_uniform).0 })
    × (bound (encode p l b.non_uniform).0 ≡ count_from 0 (length l.buffers + length l.scalars))

-- `add` is all or nothing. If it returns, the launch passed `validate` and was encoded whole behind
-- what was there; if it throws, the batch is as it was and no call reached the encoder.
pub add_atomic :
    (b : CommandBatch) (l : Launch)
    → Inv b
    → (((Batch.add b l).1 ≡ ok tt) × Added b l)
      ⊎ ((e : Error) × ((Batch.add b l).1 ≡ throw e) × ((Batch.add b l).0 ≡ b))
unfolding Batch.add send
add_atomic b l v = elim (Bool-cases (b.committed || b.discarded)) [
  | inl over ↦
      inr (if b.committed then add_committed else add_discarded, ground arith, ground arith)
  | inr live ↦ elim (Result-cases (validate l b.non_uniform b.max_threadgroup_memory)) [
    | inr (x, e) ↦ inr (x, ground arith, ground arith)
    | inl (_, e) ↦
        let (p, t, found, runs) = validate-ok-lengths l b.non_uniform b.max_threadgroup_memory e in
        let whole = encode-ok b l p e found in
        inl (
          ground (arith, v, whole),
          (p, found, e, ground (arith, v), bound-encode p l b.non_uniform),
        )
  ]
]

-- A discarded batch is dead: `add`, `barrier`, `commit` and `wait` throw, `discard` returns, and
-- none of them changes it.
pub discarded_dead :
    (b : CommandBatch) (l : Launch) (done : Completion)
    → Inv b
    → b.discarded ≡ true
    → (Batch.add b l ≡ (b, throw add_discarded))
      × (Batch.barrier b ≡ (b, throw barrier_discarded))
      × (Batch.commit b ≡ (b, throw batch_discarded))
      × (Batch.wait b done ≡ (b, throw batch_discarded))
      × (Batch.discard b ≡ (b, ok tt))
unfolding Batch.add Batch.barrier Batch.commit commit_locked Batch.wait Batch.discard
discarded_dead b l done v h =
    (ground (arith, v), ground (arith, v), ground (arith, v), ground (arith, v), ground (arith, v))

-- A committed batch takes no more work: `add` and `barrier` throw, `commit` and `discard` return,
-- and none of the four changes it.
pub committed_closed :
    (b : CommandBatch) (l : Launch)
    → Inv b
    → b.committed ≡ true
    → (Batch.add b l ≡ (b, throw add_committed))
      × (Batch.barrier b ≡ (b, throw barrier_committed))
      × (Batch.commit b ≡ (b, ok tt))
      × (Batch.discard b ≡ (b, ok tt))
unfolding Batch.add Batch.barrier Batch.commit commit_locked Batch.discard
committed_closed b l v h =
    (ground (arith, v), ground (arith, v), ground (arith, v), ground (arith, v))

-- What `wait` returns, by what Metal reports.
abbrev pub verdict : Completion → Result (Unit {0})
verdict done = if done.failed then throw execution_failed else ok tt

-- `wait` on a batch that was not discarded commits it if needed, records the GPU's time, and
-- throws exactly when the command buffer failed; a second `wait` keeps the first time, changes
-- nothing and reports a failure again.
pub wait_twice :
    (b : CommandBatch) (first second : Completion)
    → Inv b
    → b.discarded ≡ false
    → b.gpu_time ≡ none
    → ((Batch.wait b first).0.committed ≡ true)
      × ((Batch.wait b first).0.gpu_time ≡ some first.elapsed)
      × ((Batch.wait b first).1 ≡ verdict first)
      × (Batch.wait (Batch.wait b first).0 second ≡ ((Batch.wait b first).0, verdict second))
unfolding Batch.wait
wait_twice b first second v live fresh =
    (ground (arith, v), ground (arith, v), ground (arith, v), ground (arith, v))

-- One launch from start to end. If `validate` refuses it, nothing is encoded, the encoding is
-- ended unused, and the error is passed on. Else its whole encoding is sent, ended and committed,
-- and the call throws exactly when the command buffer failed.
pub dispatch_lem :
    (c e : Option ℕ) (nu : Bool) (m : ℕ) (b : CommandBatch) (l : Launch) (done : Completion)
    → create c e nu m ≡ ok b
    → ((x : Error) × (validate l nu m ≡ throw x)
        × (dispatch b l done ≡ (end_encoding ∷ [], throw x)))
      ⊎ ((p : ComputePipeline) × (validate l nu m ≡ ok tt)
          × (l.pipeline ≡ some p)
          × (dispatch b l done
              ≡ ((encode p l nu).0 ++ end_encoding ∷ commit_buffer ∷ [], verdict done)))
unfolding create dispatch
dispatch_lem none e nu m b l done h = cc
dispatch_lem (some c) none nu m b l done h = cc
dispatch_lem (some c) (some e) nu m b l done h = elim (Result-cases (validate l nu m)) [
  | inr (x, refused) ↦ inl (x, refused, ground arith)
  | inl (_, accepted) ↦
      let (p, t, found, runs) = validate-ok-lengths l nu m accepted in
      let accepted' : validate l b.non_uniform b.max_threadgroup_memory ≡ ok tt = ground arith in
      let whole = encode-ok b l p accepted' found in inr (p, accepted, found, ground (arith, whole))
]
