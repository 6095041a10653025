-- ===== src/Dispatch.antt =====
-- src/dispatch.h: `Dim3`, `BindingInfo`, `ComputePipeline`, `Launch`.
-- src/dispatch.cpp: `rounded_threadgroup_length`, `validate`, `default_threadgroup`.
pub mod Threadgroup
pub mod Memory
pub mod Bindings
pub mod Validate
pub mod Defined
use metal_runtime.Buffer.{Buffer}
use metal_runtime.Common.{
  ℕ, zero, suc, ◌+◌, ◌-◌, ◌*◌, ◌/◌, ◌%◌, ◌^◌, min, max, Bool, true, false, not, ◌&&◌, ◌||◌, List,
  [], ◌∷◌, Option, none, some, Text, length, get_elem?, ltb, leb, ◌==◌, if◌then◌else◌, size_max,
}
use metal_runtime.Errors.{
  Result, ok, throw, ◌>>=◌, ◌>>◌, throw_if, undefined_behaviour, no_pipeline, zero_grid,
  zero_threadgroup, threadgroup_too_large, too_many_bindings, argument_not_bound,
  threadgroup_memory_not_given, threadgroup_length_overflows, threadgroup_budget_exceeded,
  threadgroup_total_exceeded, scalar_too_large, scalar_width, buffer_offset, indirect_arguments,
  uneven_grid,
}
use metal_runtime.Word.{mul64}

pub record Dim3 : Type 0 where
  pub x : ℕ
  pub y : ℕ
  pub z : ℕ

unfoldable pub volume : Dim3 → ℕ
volume d = mul64 (mul64 d.x d.y) d.z

pub record BindingInfo : Type 0 where
  pub index : ℕ
  pub name : Text
  pub data_size : ℕ

pub record ComputePipeline : Type 0 where
  pub label : Text
  pub buffer_bindings : List BindingInfo
  pub threadgroup_bindings : List BindingInfo
  pub max_threads_per_threadgroup : ℕ
  pub thread_execution_width : ℕ
  pub static_threadgroup_memory_length : ℕ

pub record BufferBinding : Type 0 where
  pub buffer : Buffer
  pub offset : ℕ

-- `data` is an address.
pub record Scalar : Type 0 where
  pub address : ℕ
  pub size : ℕ

pub record Launch : Type 0 where
  pub pipeline : Option ComputePipeline
  pub buffers : List BufferBinding
  pub scalars : List Scalar
  pub threadgroup_memory : List ℕ
  pub grid : Dim3
  pub threadgroup : Dim3
  pub indirect_grid : Option Buffer
  pub indirect_offset : ℕ

abbrev pub max_inline_scalar_bytes : ℕ
max_inline_scalar_bytes = 4096

abbrev pub threadgroup_memory_alignment : ℕ
threadgroup_memory_alignment = 16

abbrev pub indirect_arguments_size : ℕ
indirect_arguments_size = 12

unfoldable pub rounded_threadgroup_length : ℕ → Result ℕ
rounded_threadgroup_length n = do
  throw_if (ltb (size_max - (threadgroup_memory_alignment - 1)) n) threadgroup_length_overflows
  ok (
      (n + threadgroup_memory_alignment - 1)
      / threadgroup_memory_alignment
      * threadgroup_memory_alignment)

abbrev has_zero : Dim3 → Bool
has_zero d = d.x == 0 || d.y == 0 || d.z == 0

abbrev is_some {ℓ} : {A : Type ℓ} → Option A → Bool
is_some none = false
is_some (some a) = true

-- The first checks of `validate`: the grid, unless it is indirect, and the threadgroup.
unfoldable pub check_extents : Launch → ℕ → Result (Unit {0})
unfolding volume
check_extents l max_total = do
  throw_if (not (is_some l.indirect_grid) && has_zero l.grid) zero_grid
  throw_if (has_zero l.threadgroup) zero_threadgroup
  throw_if
      (ltb max_total l.threadgroup.x
        || ltb max_total l.threadgroup.y
        || ltb max_total l.threadgroup.z
        || ltb max_total (volume l.threadgroup))
      (threadgroup_too_large (volume l.threadgroup) max_total)

-- The loop over the used buffer bindings.
unfoldable pub check_arguments : ℕ → List BindingInfo → Result (Unit {0})
check_arguments binding_count [] = ok tt
check_arguments binding_count (b ∷ bs) = do
  throw_if (leb binding_count b.index) (argument_not_bound b.name b.index binding_count)
  check_arguments binding_count bs

-- The loop over the used threadgroup bindings; `given` is `launch.threadgroup_memory.size()`.
unfoldable pub check_threadgroup_arguments : ℕ → List BindingInfo → Result (Unit {0})
check_threadgroup_arguments given [] = ok tt
check_threadgroup_arguments given (b ∷ bs) = do
  throw_if (leb given b.index) (threadgroup_memory_not_given b.name b.index)
  check_threadgroup_arguments given bs

-- The loop over `threadgroup_memory`, from the kernel's static bytes: the total.
unfoldable pub add_lengths : ℕ → ℕ → List ℕ → Result ℕ
unfolding rounded_threadgroup_length
add_lengths max_memory total [] = ok total
add_lengths max_memory total (n ∷ ns) = do
  rounded ← rounded_threadgroup_length n
  throw_if (ltb max_memory total || ltb (max_memory - total) rounded)
      (threadgroup_budget_exceeded max_memory)
  add_lengths max_memory (total + rounded) ns

unfoldable pub check_memory : ℕ → ℕ → List ℕ → Result (Unit {0})
unfolding add_lengths
check_memory max_memory static lengths = do
  total ← add_lengths max_memory static lengths
  throw_if (ltb max_memory total) (threadgroup_total_exceeded total max_memory)

-- The loop over `scalars`.
unfoldable pub check_scalar_sizes : List Scalar → Result (Unit {0})
check_scalar_sizes [] = ok tt
check_scalar_sizes (s ∷ ss) = do
  throw_if (ltb max_inline_scalar_bytes s.size) (scalar_too_large s.size)
  check_scalar_sizes ss

-- One round of the second loop over the used buffer bindings: the widths of inline scalars. The
-- source indexes `scalars` with no check.
unfoldable pub check_scalar_width : ℕ → List Scalar → BindingInfo → Result (Unit {0})
check_scalar_width buffer_count scalars b =
    if ltb b.index buffer_count || b.data_size == 0
    then ok tt
    else elim (get_elem? scalars (b.index - buffer_count)) [
      | none ↦ throw undefined_behaviour
      | some s ↦
          throw_if (ltb s.size b.data_size || not (s.size % b.data_size == 0))
            (scalar_width (b.index - buffer_count) s.size b.data_size)
    ]

unfoldable pub check_scalar_widths : ℕ → List Scalar → List BindingInfo → Result (Unit {0})
unfolding check_scalar_width
check_scalar_widths buffer_count scalars [] = ok tt
check_scalar_widths buffer_count scalars (b ∷ bs) = do
  check_scalar_width buffer_count scalars b
  check_scalar_widths buffer_count scalars bs

-- The loop over `buffers`; `i` is its counter.
unfoldable pub check_offsets : ℕ → List BufferBinding → Result (Unit {0})
check_offsets i [] = ok tt
check_offsets i (b ∷ bs) = do
  throw_if (leb b.buffer.size b.offset && not (b.offset == 0 && b.buffer.size == 0))
      (buffer_offset i b.offset b.buffer.size)
  check_offsets (i + 1) bs

-- The last check: the indirect arguments, or a grid that has to divide evenly.
unfoldable pub check_division : Launch → Bool → Result (Unit {0})
check_division l non_uniform = elim l.indirect_grid [
  | some b ↦
      throw_if
        (not (l.indirect_offset % 4 == 0)
          || ltb b.size l.indirect_offset
          || ltb (b.size - l.indirect_offset) indirect_arguments_size)
        (indirect_arguments l.indirect_offset b.size)
  | none ↦
      throw_if
        (not non_uniform
          && (not (l.grid.x % l.threadgroup.x == 0)
              || not (l.grid.y % l.threadgroup.y == 0)
              || not (l.grid.z % l.threadgroup.z == 0)))
        uneven_grid
]

-- `validate`, behind its first line: the launch has a pipeline.
unfoldable pub validate_with : ComputePipeline → Launch → Bool → ℕ → Result (Unit {0})
unfolding check_extents check_arguments check_threadgroup_arguments check_memory check_scalar_sizes
    check_scalar_widths check_offsets check_division
validate_with pipeline l non_uniform max_memory = do
  check_extents l pipeline.max_threads_per_threadgroup
  let binding_count = length l.buffers + length l.scalars
  throw_if (ltb 31 binding_count) (too_many_bindings binding_count)
  check_arguments binding_count pipeline.buffer_bindings
  check_threadgroup_arguments (length l.threadgroup_memory) pipeline.threadgroup_bindings
  check_memory max_memory pipeline.static_threadgroup_memory_length l.threadgroup_memory
  check_scalar_sizes l.scalars
  check_scalar_widths (length l.buffers) l.scalars pipeline.buffer_bindings
  check_offsets 0 l.buffers
  check_division l non_uniform

unfoldable pub validate : Launch → Bool → ℕ → Result (Unit {0})
unfolding validate_with
validate l non_uniform max_memory = elim l.pipeline [
  | none ↦ throw no_pipeline
  | some pipeline ↦ validate_with pipeline l non_uniform max_memory
]

-- The one-dimensional case of `default_threadgroup`: whole SIMD groups.
unfoldable pub linear_threadgroup : Dim3 → ℕ → ℕ → Dim3
linear_threadgroup grid max_total width =
    let whole : ℕ = (max_total / width) * width in
    let total : ℕ = if whole == 0 then max_total else whole in
    record { x = max (min grid.x total) 1; y = 1; z = 1 }

unfoldable pub spread_threadgroup : Dim3 → ℕ → ℕ → Dim3
spread_threadgroup grid max_total width =
    let x = max (min grid.x width) 1 in
    let y = max (min grid.y (max_total / x)) 1 in
    let z = max (min grid.z (max_total / mul64 x y)) 1 in record { x = x; y = y; z = z }

unfoldable pub default_threadgroup : ComputePipeline → Dim3 → Dim3
unfolding linear_threadgroup spread_threadgroup
default_threadgroup p grid =
    let max_total = max p.max_threads_per_threadgroup 1 in
    let width = max p.thread_execution_width 1 in
    if leb grid.y 1 && leb grid.z 1
    then linear_threadgroup grid max_total width
    else spread_threadgroup grid max_total width
