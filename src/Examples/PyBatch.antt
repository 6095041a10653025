-- ===== src/Examples/PyBatch.antt =====
-- A batch with one launch that one caller waits for.
use metal_runtime.Batch
use metal_runtime.Batch.{CommandBatch, Completion, create, encode, commit_locked, wait_finish}
use metal_runtime.Common.{◌≡◌, ◌≢◌, ◌⊎◌, refl, [], ◌∷◌, none, some, true, false}
use metal_runtime.Dispatch.{Launch, validate, rounded_threadgroup_length}
use metal_runtime.Errors.{ok, throw, execution_failed}
use metal_runtime.Examples.PyLaunch.{arguments, arguments-Owns, owner}
use metal_runtime.PyBatch
use metal_runtime.PyBatch.{PyBatch}
use metal_runtime.PyBatch.Finish.{Runs, Reach-finishes}
use metal_runtime.PyBatch.Pinned.{Reach-IsPinned}
use metal_runtime.PyBatch.Threads.{System, Step, Reach, created, later}
use metal_runtime.PyBatch.Uses.{LogIsPinned}
use metal_runtime.Word.{mul64}

abbrev fresh : CommandBatch
fresh = record {
  command_buffer = some 1;
  encoder = some 2;
  committed = false;
  discarded = false;
  non_uniform = true;
  max_threadgroup_memory = 32768;
  gpu_time = none;
  log = [];
}

fresh_made : create (some 1) (some 2) true 32768 ≡ ok fresh
unfolding create
fresh_made = refl

abbrev start : PyBatch
start = record { batch = fresh; keepalive = [] }

-- The kernel and the buffer are pinned, and a wait releases them.
pinned : (PyBatch.add start arguments).0.keepalive ≡ 107 ∷ 100 ∷ []
unfolding PyBatch.add Batch.add validate rounded_threadgroup_length mul64 encode
pinned = refl

abbrev failed : Completion
failed = record { elapsed = 5; failed = true }

-- A wait that reports a failed command buffer releases nothing.
keeps_pinned : PyBatch.wait (PyBatch.add start arguments).0 failed ≡ (
  record {
    batch = (Batch.wait (PyBatch.add start arguments).0.batch failed).0;
    keepalive = 107 ∷ 100 ∷ [];
  },
  throw execution_failed,
)
unfolding PyBatch.wait PyBatch.add Batch.wait Batch.add validate rounded_threadgroup_length mul64
    encode
keeps_pinned = refl

abbrev used : System
used = record {
  py = (PyBatch.add start arguments).0;
  waiting = 0;
  releasing = 0;
  completed = false;
}

used-Reach : Reach owner used
used-Reach =
    later (created (some 1) (some 2) true 32768 fresh fresh_made)
      (Step.add arguments arguments-Owns)

used_live : used.py.batch.discarded ≡ false
unfolding PyBatch.add Batch.add validate rounded_threadgroup_length mul64 encode
used_live = refl

Reach-IsPinned_example :
    ((false ≡ true) × ((l : Launch) → (Batch.add used.py.batch l).0 ≡ used.py.batch))
    ⊎ LogIsPinned owner used.py.keepalive used.py.batch.log
Reach-IsPinned_example = Reach-IsPinned owner used-Reach

Reach-finishes_example :
    (t : System) × Runs owner used t
    × (t.completed ≡ true)
    × (t.py.keepalive ≡ [])
    × (t.py.batch.gpu_time ≢ none)
Reach-finishes_example = Reach-finishes owner 5 used-Reach used_live
