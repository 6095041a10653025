-- ===== src/Batch/Threads.antt =====
-- `CommandBatch` shared by threads. Each method is one critical section under `state_mutex_`, but
-- for `wait`, which is two, with `waitUntilCompleted` on the unlocked command buffer in between.
use metal_runtime.Batch
use metal_runtime.Batch.Methods.{
  Inv, create-Inv, add-IsSafe, barrier-IsSafe, commit_locked-IsSafe, discard-IsSafe,
  wait_finish-IsSafe, commit_locked-live,
}
use metal_runtime.Batch.Protocol.{encoding, ended, submitted, follow, follow-append}
use metal_runtime.Batch.{
  CommandBatch, Completion, commit_locked, wait_finish, is_some, destroy, end_encoding,
}
use metal_runtime.Common.{
  ℕ, suc, ◌≡◌, ◌≢◌, ◌⊎◌, inl, inr, refl, Bool, true, false, arith, [], ◌∷◌, Option, some,
}
use metal_runtime.Dispatch.Defined.{IsDefined}
use metal_runtime.Dispatch.{Launch}
use metal_runtime.Errors.{Error, ok, throw}

-- `waiting` counts the callers that are between the two critical sections of `wait`.
pub record System : Type 0 where
  pub batch : CommandBatch
  pub waiting : ℕ

-- One critical section of some thread.
pub data Step (s : System) : System → Type 0 where
  add : (l : Launch) → Step s (record s { batch = (Batch.add s.batch l).0 })
  barrier : Step s (record s { batch = (Batch.barrier s.batch).0 })
  commit : Step s (record s { batch = (Batch.commit s.batch).0 })
  discard : Step s (record s { batch = (Batch.discard s.batch).0 })
  wait_fails :
      (e : Error)
      → (commit_locked s.batch).1 ≡ throw e
      → Step s (record s { batch = (commit_locked s.batch).0 })
  wait_begins :
      (commit_locked s.batch).1 ≡ ok tt
      → Step s (record { batch = (commit_locked s.batch).0; waiting = suc s.waiting })
  wait_ends :
      (n : ℕ) (done : Completion)
      → s.waiting ≡ suc n
      → Step s (record { batch = (wait_finish s.batch done).0; waiting = n })

-- The states that a batch made by the constructor can come to.
pub data Reach : System → Type 0 where
  created :
      (c e : Option ℕ) (nu : Bool) (m : ℕ) (b : CommandBatch)
      → Batch.create c e nu m ≡ ok b
      → Reach (record { batch = b; waiting = 0 })
  later : {s t : System} → Reach s → Step s t → Reach t

-- While someone waits the batch is committed, so no `discard` resets what it waits on.
pub record SystemInv (s : System) : Type 0 where
  pub inv : Inv s.batch
  pub waits : (s.waiting ≡ 0) ⊎ (s.batch.committed ≡ true)

pub add-committed : (b : CommandBatch) (l : Launch) → b.committed ≡ true → (Batch.add b l).0 ≡ b
unfolding Batch.add
add-committed b l h = ground arith

pub barrier-committed : (b : CommandBatch) → b.committed ≡ true → (Batch.barrier b).0 ≡ b
unfolding Batch.barrier
barrier-committed b h = ground arith

pub commit_locked-committed : (b : CommandBatch) → b.committed ≡ true → (commit_locked b).0 ≡ b
unfolding commit_locked
commit_locked-committed b h = ground arith

pub discard-committed : (b : CommandBatch) → b.committed ≡ true → (Batch.discard b).0 ≡ b
unfolding Batch.discard
discard-committed b h = ground arith

pub wait_finish-committed :
    (b : CommandBatch) (done : Completion) → (wait_finish b done).0.committed ≡ b.committed
unfolding wait_finish
wait_finish-committed b done = ground arith

not-both : (b : CommandBatch) → Inv b → b.committed ≡ true → b.discarded ≡ false
not-both b v h = ground (arith, v)

Step-Inv : {s t : System} → Step s t → SystemInv s → SystemInv t
unfolding Batch.commit
Step-Inv {s} (add l) v = record {
  inv = (add-IsSafe s.batch l v.inv).0;
  waits = ground (arith, v, add-committed s.batch l);
}
Step-Inv {s} barrier v = record {
  inv = (barrier-IsSafe s.batch v.inv).0;
  waits = ground (arith, v, barrier-committed s.batch);
}
Step-Inv {s} commit v = record {
  inv = (commit_locked-IsSafe s.batch v.inv).0;
  waits = ground (arith, v, commit_locked-committed s.batch);
}
Step-Inv {s} discard v = record {
  inv = (discard-IsSafe s.batch v.inv).0;
  waits = ground (arith, v, discard-committed s.batch);
}
Step-Inv {s} (wait_fails e h) v = record {
  inv = (commit_locked-IsSafe s.batch v.inv).0;
  waits = ground (arith, v, commit_locked-committed s.batch);
}
Step-Inv {s} (wait_begins h) v = record {
  inv = (commit_locked-IsSafe s.batch v.inv).0;
  waits = inr (commit_locked-live s.batch h v.inv).0;
}
Step-Inv {s} (wait_ends n done h) v =
    let committed : s.batch.committed ≡ true = ground (arith, v) in
    record {
      inv = (wait_finish-IsSafe s.batch done v.inv (not-both s.batch v.inv committed)).0;
      waits = ground (arith, wait_finish-committed s.batch done);
    }

pub Reach-Inv : {s : System} → Reach s → SystemInv s
Reach-Inv (created c e nu m b h) = record { inv = create-Inv c e nu m b h; waits = inl refl }
Reach-Inv (later r st) = Step-Inv st (Reach-Inv r)

-- Whatever the interleaving of the threads' critical sections, no method calls through a null
-- encoder or command buffer, and a caller that waits on the unlocked command buffer still has it.
pub Reach-IsSafe :
    {s : System}
    → Reach s
    → ((l : Launch) → IsDefined (Batch.add s.batch l).1)
      × IsDefined (Batch.barrier s.batch).1
      × IsDefined (Batch.commit s.batch).1
      × IsDefined (Batch.discard s.batch).1
      × ((done : Completion)
          → s.waiting ≢ 0
          → (is_some s.batch.command_buffer ≡ true) × IsDefined (wait_finish s.batch done).1)
unfolding Batch.commit
Reach-IsSafe {s} r =
    let v = Reach-Inv r in
    (
      λ l. (add-IsSafe s.batch l v.inv).1,
      (barrier-IsSafe s.batch v.inv).1,
      (commit_locked-IsSafe s.batch v.inv).1,
      (discard-IsSafe s.batch v.inv).1,
      λ done busy.
          let committed : s.batch.committed ≡ true = ground (arith, v) in
          let live = not-both s.batch v.inv committed in
          (ground (arith, v.inv), (wait_finish-IsSafe s.batch done v.inv live).1),
    )

-- However a batch is used before it is destroyed, the calls of Metal in its whole life obey the
-- rules of a command buffer: the encoding is ended exactly once, before the release, and the buffer
-- is committed at most once, after that; it is committed exactly when the batch was.
pub destroy_legal :
    {s : System}
    → Reach s
    → ((s.batch.committed ≡ true) × (follow encoding (destroy s.batch) ≡ some submitted))
      ⊎ ((s.batch.committed ≡ false) × (follow encoding (destroy s.batch) ≡ some ended))
unfolding destroy
destroy_legal {s} r =
    let v = Reach-Inv r in
    ground (arith, v.inv, follow-append encoding encoding s.batch.log (end_encoding ∷ []))
