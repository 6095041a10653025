-- ===== src/Batch.antt =====
-- src/dispatch.h, src/dispatch.cpp: `CommandBatch`, `dispatch`. A method returns the batch that it
-- leaves behind beside its result, since an exception does not undo what was written. What it
-- calls of Metal's encoder and command buffer is appended to the batch's log, oldest first.
pub mod Protocol
pub mod Encode
pub mod Sends
pub mod Methods
pub mod Threads
pub mod Calls
use metal_runtime.Buffer.{Buffer}
use metal_runtime.Common.{
  ℕ, zero, suc, ◌+◌, ◌/◌, Bool, true, false, ◌||◌, List, [], ◌∷◌, ◌++◌, Option, none, some, Text,
  if◌then◌else◌,
}
use metal_runtime.Dispatch.{
  Dim3, ComputePipeline, BufferBinding, Scalar, Launch, rounded_threadgroup_length, validate,
}
use metal_runtime.Errors.{
  Error, Result, ok, throw, undefined_behaviour, no_command_buffer, no_encoder, add_committed,
  add_discarded, barrier_committed, barrier_discarded, batch_discarded, execution_failed,
}

-- Calls of Metal.
pub data Command : Type 0 where
  set_pipeline : ComputePipeline → Command
  set_buffer : ℕ → ℕ → ℕ → Command
  set_bytes : ℕ → ℕ → ℕ → Command
  set_threadgroup_memory_length : ℕ → ℕ → Command
  dispatch_threads : Dim3 → Dim3 → Command
  dispatch_threadgroups : Dim3 → Dim3 → Command
  dispatch_threadgroups_indirect : ℕ → ℕ → Dim3 → Command
  memory_barrier : Command
  end_encoding : Command
  commit_buffer : Command

-- The two handles are null (`none`) once they are reset. `gpu_time` is the bit pattern of a double.
pub record CommandBatch : Type 0 where
  pub command_buffer : Option ℕ
  pub encoder : Option ℕ
  pub committed : Bool
  pub discarded : Bool
  pub non_uniform : Bool
  pub max_threadgroup_memory : ℕ
  pub gpu_time : Option ℕ
  pub log : List Command

abbrev pub Outcome : Type 0
Outcome = CommandBatch × Result (Unit {0})

abbrev pub is_some {ℓ} : {A : Type ℓ} → Option A → Bool
is_some none = false
is_some (some a) = true

-- The constructor, over what the queue and the command buffer return.
unfoldable pub create : Option ℕ → Option ℕ → Bool → ℕ → Result CommandBatch
create none encoder non_uniform max_memory = throw no_command_buffer
create (some b) none non_uniform max_memory = throw no_encoder
create (some b) (some e) non_uniform max_memory = ok (record {
  command_buffer = some b;
  encoder = some e;
  committed = false;
  discarded = false;
  non_uniform = non_uniform;
  max_threadgroup_memory = max_memory;
  gpu_time = none;
  log = [];
})

-- The two binding loops of `add`; `index` is the shared counter.
unfoldable pub set_scalars : ℕ → List Scalar → List Command
set_scalars index [] = []
set_scalars index (s ∷ ss) = set_bytes s.address s.size index ∷ set_scalars (index + 1) ss

unfoldable pub set_buffers : ℕ → List BufferBinding → List Scalar → List Command
unfolding set_scalars
set_buffers index [] ss = set_scalars index ss
set_buffers index (b ∷ bs) ss =
    set_buffer b.buffer.handle b.offset index ∷ set_buffers (index + 1) bs ss

-- The loop over `threadgroup_memory`: the calls made, and how it ended.
unfoldable pub set_lengths : ℕ → List ℕ → List Command × Result (Unit {0})
unfolding rounded_threadgroup_length
set_lengths i [] = ([], ok tt)
set_lengths i (n ∷ ns) =
    let rest = set_lengths (i + 1) ns in
    elim (rounded_threadgroup_length n) [
      | throw e ↦ ([], throw e)
      | ok r ↦ (set_threadgroup_memory_length r i ∷ rest.0, rest.1)
    ]

-- The dispatch itself.
unfoldable pub dispatch_command : Launch → Bool → Command
dispatch_command l non_uniform = elim l.indirect_grid [
  | some b ↦ dispatch_threadgroups_indirect b.handle l.indirect_offset l.threadgroup
  | none ↦
      if non_uniform
      then dispatch_threads l.grid l.threadgroup
      else dispatch_threadgroups
          (record {
            x = l.grid.x / l.threadgroup.x;
            y = l.grid.y / l.threadgroup.y;
            z = l.grid.z / l.threadgroup.z;
          })
          l.threadgroup
]

-- What `add` does behind `validate`.
unfoldable pub encode : ComputePipeline → Launch → Bool → List Command × Result (Unit {0})
unfolding set_buffers set_lengths dispatch_command
encode p l non_uniform =
    let head = set_pipeline p ∷ set_buffers 0 l.buffers l.scalars in
    let lengths = set_lengths 0 l.threadgroup_memory in
    elim (lengths.1) [
      | throw e ↦ (head ++ lengths.0, throw e)
      | ok _ ↦ (head ++ lengths.0 ++ dispatch_command l non_uniform ∷ [], ok tt)
    ]

-- `encoder_->…`: a call through a null encoder is undefined.
unfoldable pub send : CommandBatch → List Command × Result (Unit {0}) → Outcome
send b cs = elim b.encoder [
  | none ↦ (b, throw undefined_behaviour)
  | some e ↦ (record b { log = b.log ++ cs.0 }, cs.1)
]

unfoldable pub add : CommandBatch → Launch → Outcome
unfolding encode send
add b l =
    if b.committed || b.discarded
    then (b, throw (if b.committed then add_committed else add_discarded))
    else elim (validate l b.non_uniform b.max_threadgroup_memory) [
      | throw e ↦ (b, throw e)
      | ok _ ↦ elim l.pipeline [
        | none ↦ (b, throw undefined_behaviour)
        | some p ↦ send b (encode p l b.non_uniform)
      ]
    ]

unfoldable pub barrier : CommandBatch → Outcome
unfolding send
barrier b =
    if b.committed || b.discarded
    then (b, throw (if b.committed then barrier_committed else barrier_discarded))
    else send b (memory_barrier ∷ [], ok tt)

unfoldable pub commit_locked : CommandBatch → Outcome
unfolding send
commit_locked b =
    if b.discarded
    then (b, throw batch_discarded)
    else if b.committed
    then (b, ok tt)
    else elim b.command_buffer [
      | none ↦ send (record b { committed = true }) (end_encoding ∷ [], throw undefined_behaviour)
      | some h ↦ send (record b { committed = true }) (end_encoding ∷ commit_buffer ∷ [], ok tt)
    ]

unfoldable pub commit : CommandBatch → Outcome
unfolding commit_locked
commit b = commit_locked b

-- What Metal reports of a finished command buffer.
pub record Completion : Type 0 where
  pub elapsed : ℕ
  pub failed : Bool

-- The last critical section of `wait`. The command buffer is used here, and before it by
-- `waitUntilCompleted`.
unfoldable pub wait_finish : CommandBatch → Completion → Outcome
wait_finish b done = elim b.command_buffer [
  | none ↦ (b, throw undefined_behaviour)
  | some h ↦ (
    record b { gpu_time = elim b.gpu_time [ none ↦ some done.elapsed | some t ↦ some t ] },
    if done.failed then throw execution_failed else ok tt,
  )
]

-- `wait` with no other thread in between.
unfoldable pub wait : CommandBatch → Completion → Outcome
unfolding commit_locked wait_finish
wait b done =
    let r = commit_locked b in elim r.1 [ throw e ↦ (r.0, throw e) | ok _ ↦ wait_finish r.0 done ]

unfoldable pub discard : CommandBatch → Outcome
discard b = if b.committed || b.discarded then (b, ok tt) else elim b.encoder [
  | none ↦ (record b { discarded = true }, throw undefined_behaviour)
  | some e ↦ (
    record b {
      discarded = true;
      log = b.log ++ end_encoding ∷ [];
      encoder = none;
      command_buffer = none;
    },
    ok tt,
  )
]

-- `~CommandBatch`: the calls of Metal in the batch's whole life.
unfoldable pub destroy : CommandBatch → List Command
destroy b =
    if b.committed
    then b.log
    else elim b.encoder [ none ↦ b.log | some e ↦ b.log ++ end_encoding ∷ [] ]

-- `dispatch`, once its batch is created: the calls of Metal, and the result.
unfoldable pub dispatch : CommandBatch → Launch → Completion → List Command × Result (Unit {0})
unfolding add wait destroy
dispatch b l done =
    let added = add b l in
    elim (added.1) [
      | throw e ↦ (destroy added.0, throw e)
      | ok _ ↦ (destroy (wait added.0 done).0, (wait added.0 done).1)
    ]
