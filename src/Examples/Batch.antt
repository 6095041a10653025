-- ===== src/Examples/Batch.antt =====
-- A batch that takes one launch.
use metal_runtime.Batch
use metal_runtime.Batch.{
  CommandBatch, Completion, create, encode, dispatch, commit_locked, wait_finish, is_some, destroy,
  end_encoding, commit_buffer,
}
use metal_runtime.Batch.Calls.{Added, add_atomic}
use metal_runtime.Batch.Methods.{Inv, create-Inv}
use metal_runtime.Batch.Protocol.{encoding, ended, submitted, follow}
use metal_runtime.Batch.Threads.{System, Step, Reach, created, later, Reach-IsSafe, destroy_legal}
use metal_runtime.Common.{◌≡◌, ◌≢◌, ◌⊎◌, refl, [], ◌∷◌, none, some, true, false}
use metal_runtime.Dispatch.{Launch, validate, rounded_threadgroup_length}
use metal_runtime.Dispatch.Defined.{IsDefined}
use metal_runtime.Errors.{Error, ok, throw}
use metal_runtime.Examples.Dispatch.{launch}
use metal_runtime.Word.{mul64}

abbrev pub fresh : CommandBatch
fresh = record {
  command_buffer = some 1;
  encoder = some 2;
  committed = false;
  discarded = false;
  non_uniform = true;
  max_threadgroup_memory = 32768;
  gpu_time = none;
  log = [];
}

pub fresh_made : create (some 1) (some 2) true 32768 ≡ ok fresh
unfolding create
fresh_made = refl

abbrev pub finished : Completion
finished = record { elapsed = 5; failed = false }

-- A launch is added, and one caller waits.
abbrev used : System
used = record { batch = (commit_locked (Batch.add fresh launch).0).0; waiting = 1 }

used_commits : (commit_locked (Batch.add fresh launch).0).1 ≡ ok tt
unfolding commit_locked Batch.add validate rounded_threadgroup_length encode mul64
used_commits = refl

used-Reach : Reach used
used-Reach =
    later (later (created (some 1) (some 2) true 32768 fresh fresh_made) (Step.add launch))
      (Step.wait_begins used_commits)

Reach-IsSafe_example :
    ((l : Launch) → IsDefined (Batch.add used.batch l).1)
    × IsDefined (Batch.barrier used.batch).1
    × IsDefined (Batch.commit used.batch).1
    × IsDefined (Batch.discard used.batch).1
    × ((done : Completion)
        → used.waiting ≢ 0
        → (is_some used.batch.command_buffer ≡ true) × IsDefined (wait_finish used.batch done).1)
Reach-IsSafe_example = Reach-IsSafe used-Reach

destroy_legal_example :
    ((used.batch.committed ≡ true) × (follow encoding (destroy used.batch) ≡ some submitted))
    ⊎ ((used.batch.committed ≡ false) × (follow encoding (destroy used.batch) ≡ some ended))
destroy_legal_example = destroy_legal used-Reach

add_atomic_example :
    (((Batch.add fresh launch).1 ≡ ok tt) × Added fresh launch)
    ⊎ ((e : Error) × ((Batch.add fresh launch).1 ≡ throw e) × ((Batch.add fresh launch).0 ≡ fresh))
add_atomic_example =
    add_atomic fresh launch (create-Inv (some 1) (some 2) true 32768 fresh fresh_made)

abbrev dead : CommandBatch
dead = record fresh {
  command_buffer = none;
  encoder = none;
  discarded = true;
  log = end_encoding ∷ [];
}

dead_left : Batch.discard fresh ≡ (dead, ok tt)
unfolding Batch.discard
dead_left = refl

dead-Inv : Inv dead
dead-Inv = record { legal = refl; holds_buffer = refl; holds_encoder = refl; exclusive = refl }

abbrev closed : CommandBatch
closed = record fresh { committed = true; log = end_encoding ∷ commit_buffer ∷ [] }

closed_left : Batch.commit fresh ≡ (closed, ok tt)
unfolding Batch.commit
closed_left = refl

closed-Inv : Inv closed
closed-Inv = record { legal = refl; holds_buffer = refl; holds_encoder = refl; exclusive = refl }
