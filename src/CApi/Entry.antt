-- ===== src/CApi/Entry.antt =====
-- src/c_api.cpp: the entry points `mr_dispatch` and the functions of `MRBatch`, and those of `MRBuffer`
-- with their out parameters.
use metal_runtime.Batch
use metal_runtime.Batch.{Command, CommandBatch, Completion}
use metal_runtime.Buffer.{Device}
use metal_runtime.CApi.{MrLaunchDesc, build_launch}
use metal_runtime.CApi.Memory.{Region, Copy, MrBuffer, mr_wrap_buffer, mr_buffer_flush_to}
use metal_runtime.Common.{ℕ, Bool, List, [], Option, none, some, codes}
use metal_runtime.Errors.{Result, ok, throw, ◌>>◌, throw_if, null_argument}
use metal_runtime.Errors.Translate.{MrStatus, Message, mr_guard}
use metal_runtime.CApi.Answers.{Out, is_null, Answer, answer}

-- `mr_dispatch`, over the batch that `dispatch` creates: the calls of Metal, and the answer.
unfoldable pub mr_dispatch :
    Bool
    → Result CommandBatch
    → Option MrLaunchDesc
    → Completion
    → Option Message
    → List Command × (MrStatus × Option Message)
unfolding build_launch Batch.dispatch
mr_dispatch malloc made desc done message = elim (build_launch (codes "mr_dispatch") desc) [
  | throw e ↦ ([], mr_guard {A = Unit {0}} malloc message (throw e))
  | ok l ↦ elim made [
    | throw e ↦ ([], mr_guard {A = Unit {0}} malloc message (throw e))
    | ok b ↦ let r = Batch.dispatch b l done in (r.0, mr_guard malloc message r.1)
  ]
]

-- A function of `MRBatch`: the batch that it leaves behind, and the answer.
abbrev pub on_batch :
    Bool
    → Option Message
    → Option CommandBatch
    → (CommandBatch → Batch.Outcome)
    → Option CommandBatch × (MrStatus × Option Message)
on_batch malloc message none body =
    (none, mr_guard {A = Unit {0}} malloc message (throw (null_argument 0)))
on_batch malloc message (some b) body = let r = body b in (some r.0, mr_guard malloc message r.1)

-- The body of `mr_batch_add` for a batch.
unfoldable pub add_description : Option MrLaunchDesc → CommandBatch → Batch.Outcome
unfolding build_launch Batch.add
add_description desc b = elim (build_launch (codes "mr_batch_add") desc) [
  | throw e ↦ (b, throw e)
  | ok l ↦ Batch.add b l
]

unfoldable pub mr_batch_add :
    Bool
    → Option CommandBatch
    → Option MrLaunchDesc
    → Option Message
    → Option CommandBatch × (MrStatus × Option Message)
unfolding add_description
mr_batch_add malloc batch desc message = on_batch malloc message batch (add_description desc)

unfoldable pub mr_batch_commit :
    Bool → Option CommandBatch → Option Message → Option CommandBatch × (MrStatus × Option Message)
unfolding Batch.commit
mr_batch_commit malloc batch message = on_batch malloc message batch Batch.commit

unfoldable pub mr_batch_wait :
    Bool
    → Option CommandBatch
    → Completion
    → Option Message
    → Option CommandBatch × (MrStatus × Option Message)
unfolding Batch.wait
mr_batch_wait malloc batch done message = on_batch malloc message batch (λ b. Batch.wait b done)

-- `made` is what `MRBatch`'s constructor returns.
unfoldable pub mr_batch_create :
    Bool → Result CommandBatch → Out CommandBatch → Option Message → Answer CommandBatch
mr_batch_create malloc made out message =
    answer malloc message out (do throw_if (is_null out) (null_argument 0); made)

-- `mr_release_batch`: the calls of Metal in the batch's life.
unfoldable pub mr_release_batch : Option CommandBatch → List Command
unfolding Batch.destroy
mr_release_batch none = []
mr_release_batch (some b) = Batch.destroy b

-- `mr_wrap_buffer` with its out parameter; the body is `CApi.mr_wrap_buffer`, and the copies that it
-- makes stand beside the buffer.
unfoldable pub wrap_buffer :
    Bool
    → Device
    → (ℕ → Option Region)
    → ℕ
    → ℕ
    → Out (MrBuffer × List Copy)
    → Option Message
    → Answer (MrBuffer × List Copy)
unfolding mr_wrap_buffer
wrap_buffer malloc device vm ptr size_bytes out message =
    answer malloc message out
      (do throw_if (is_null out) (null_argument 0); mr_wrap_buffer device vm ptr size_bytes)

-- `mr_buffer_flush_to`: the copies, and the answer.
unfoldable pub flush_buffer :
    Bool
    → Device
    → Option MrBuffer
    → Option Message
    → Result (List Copy) × (MrStatus × Option Message)
unfolding mr_buffer_flush_to
flush_buffer malloc device buffer message =
    let made = mr_buffer_flush_to device buffer in (made, mr_guard malloc message made)
