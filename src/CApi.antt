-- ===== src/CApi.antt =====
-- src/c_api.cpp: `build_launch`. Its buffers are those of CApi.Memory.
pub mod Listed
pub mod Bind
pub mod Named
pub mod Memory
pub mod Answers
pub mod Pages
pub mod Wrap
pub mod BuildLaunch
pub mod Entry
pub mod Contract
pub mod Handles
use metal_runtime.Buffer.{Device, page_size, Buffer, allocate, wrap}
use metal_runtime.Common.{
  ℕ, zero, suc, ◌+◌, ◌-◌, ◌*◌, ◌/◌, ◌^◌, Bool, true, false, not, ◌&&◌, ◌||◌, List, [], ◌∷◌, ◌++◌,
  Option, none, some, Text, get_elem?, take, length, ltb, leb, ◌==◌, if◌then◌else◌, size_max,
}
use metal_runtime.Dispatch.{
  Dim3, ComputePipeline, BufferBinding, Scalar, Launch, default_threadgroup,
}
use metal_runtime.Errors.{
  Result, ok, throw, ◌>>=◌, ◌>>◌, throw_if, undefined_behaviour, launch_null, launch_no_pipeline,
  null_pointer_for_size, range_overflows, rounded_range_overflows, buffers_required,
  scalars_required, threadgroup_memory_required, null_buffer, null_scalar, logical_offset,
}
use metal_runtime.CApi.Memory.{MrBuffer}

-- An array pointer is null or leads to a list of elements, as many as the caller provides.
abbrev pub Array {ℓ} : Type ℓ → Type ℓ
Array A = Option (List A)

pub record MrLaunchDesc : Type 0 where
  pub pipeline : Option ComputePipeline
  pub buffers : Array (Option MrBuffer)
  pub buffer_offsets : Array ℕ
  pub buffer_count : ℕ
  pub scalars : Array (Option ℕ)
  pub scalar_sizes : Array ℕ
  pub scalar_count : ℕ
  pub threadgroup_memory : Array ℕ
  pub threadgroup_memory_count : ℕ
  pub grid : Dim3
  pub threadgroup : Dim3

abbrev pub is_null {ℓ} : {A : Type ℓ} → Option A → Bool
is_null none = true
is_null (some a) = false

-- `array[i]`: undefined past the end, and through a null pointer.
unfoldable pub at {ℓ} : {A : Type ℓ} → Array A → ℕ → Result A
at none i = throw undefined_behaviour
at (some xs) i = elim (get_elem? xs i) [ none ↦ throw undefined_behaviour | some x ↦ ok x ]

-- `buffers[i]` is not null. `who` names the entry point in messages.
unfoldable pub bind_at : Text → Array ℕ → ℕ → MrBuffer → Result BufferBinding
unfolding at
bind_at who offsets i b = do
  offset ← at offsets i
  throw_if
      (leb b.logical_size offset && not (offset == 0 && b.logical_size == 0)
        || ltb (size_max - b.external_offset) offset)
      (logical_offset who i offset b.logical_size)
  ok (record { buffer = b.buffer; offset = offset + b.external_offset })

unfoldable pub bind_buffer : Text → Array (Option MrBuffer) → Array ℕ → ℕ → Result BufferBinding
unfolding at bind_at
bind_buffer who buffers offsets i = do
  entry ← at buffers i
  elim entry [ none ↦ throw (null_buffer who i) | some b ↦ bind_at who offsets i b ]

-- The loop over the buffers: `rounds` are left, and `i` is the counter.
unfoldable pub bind_buffers :
    Text → Array (Option MrBuffer) → Array ℕ → ℕ → ℕ → Result (List BufferBinding)
unfolding bind_buffer
bind_buffers who buffers offsets zero i = ok []
bind_buffers who buffers offsets (suc rounds) i = do
  b ← bind_buffer who buffers offsets i
  bs ← bind_buffers who buffers offsets rounds (i + 1)
  ok (b ∷ bs)

unfoldable pub bind_scalar : Text → Array (Option ℕ) → Array ℕ → ℕ → Result Scalar
unfolding at
bind_scalar who scalars sizes i = do
  entry ← at scalars i
  elim entry [
    | none ↦ throw (null_scalar who i)
    | some address ↦ do size ← at sizes i; ok (record { address = address; size = size })
  ]

-- The loop over the scalars.
unfoldable pub bind_scalars : Text → Array (Option ℕ) → Array ℕ → ℕ → ℕ → Result (List Scalar)
unfolding bind_scalar
bind_scalars who scalars sizes zero i = ok []
bind_scalars who scalars sizes (suc rounds) i = do
  s ← bind_scalar who scalars sizes i
  ss ← bind_scalars who scalars sizes rounds (i + 1)
  ok (s ∷ ss)

-- `assign(array, array + count)`
unfoldable pub assign : Array ℕ → ℕ → Result (List ℕ)
assign none count = if count == 0 then ok [] else throw undefined_behaviour
assign (some xs) count =
    if leb count (length xs) then ok (take count xs) else throw undefined_behaviour

-- `build_launch`, behind its first two lines: the description is given, and has a pipeline.
unfoldable pub build_with : Text → ComputePipeline → MrLaunchDesc → Result Launch
unfolding bind_buffers bind_scalars assign
build_with who pipeline d = do
  throw_if (not (d.buffer_count == 0) && (is_null d.buffers || is_null d.buffer_offsets))
      (buffers_required who)
  throw_if (not (d.scalar_count == 0) && (is_null d.scalars || is_null d.scalar_sizes))
      (scalars_required who)
  throw_if (not (d.threadgroup_memory_count == 0) && is_null d.threadgroup_memory)
      (threadgroup_memory_required who)
  buffers ← bind_buffers who d.buffers d.buffer_offsets d.buffer_count 0
  scalars ← bind_scalars who d.scalars d.scalar_sizes d.scalar_count 0
  lengths ←
      if d.threadgroup_memory_count == 0
      then ok []
      else assign d.threadgroup_memory d.threadgroup_memory_count
  ok (record {
    pipeline = some pipeline;
    buffers = buffers;
    scalars = scalars;
    threadgroup_memory = lengths;
    grid = d.grid;
    threadgroup =
        if d.threadgroup.x == 0 then default_threadgroup pipeline d.grid else d.threadgroup;
    indirect_grid = none;
    indirect_offset = 0;
  })

unfoldable pub build_launch : Text → Option MrLaunchDesc → Result Launch
unfolding build_with
build_launch who none = throw (launch_null who)
build_launch who (some d) = elim d.pipeline [
  | none ↦ throw (launch_no_pipeline who)
  | some pipeline ↦ build_with who pipeline d
]
