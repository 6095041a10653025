-- ===== src/Dispatch/Validate.antt =====
-- `validate` accepts exactly the launches that meet its conditions, over true numbers.
use metal_runtime.Buffer.{Buffer}
use metal_runtime.Common.{
  ℕ, ◌+◌, ◌-◌, ◌*◌, ◌%◌, ◌^◌, ◌≤◌, ◌<◌, ◌≡◌, ◌≢◌, ◌↔◌, ◌⊎◌, inl, inr, Bool, true, arith, ltb,
  Option, none, some, length, All, Option-cases, size_max,
}
use metal_runtime.Dispatch.Bindings.{
  Below, AreSmall, IsWide, StartsInside, check_arguments_iff, check_threadgroup_arguments_iff,
  check_scalar_sizes_iff, check_scalar_widths_iff, check_offsets_iff,
}
use metal_runtime.Dispatch.Memory.{total, check_memory_iff}
use metal_runtime.Dispatch.{
  Dim3, volume, ComputePipeline, Launch, check_extents, check_arguments,
  check_threadgroup_arguments, check_memory, check_scalar_sizes, check_scalar_widths, check_offsets,
  check_division, validate_with, validate,
}
use metal_runtime.Errors.{ok, throw_if, >>_iff, throw_if_iff, too_many_bindings}
use metal_runtime.Word.{mul64_of_lt}

abbrev pub NonZero : Dim3 → Type 0
NonZero d = (1 ≤ d.x) × (1 ≤ d.y) × (1 ≤ d.z)

-- The true number of threads.
abbrev pub threads : Dim3 → ℕ
threads d = d.x * d.y * d.z

-- The grid is given by the host, or read from a buffer.
abbrev pub GridGiven : Launch → Type 0
GridGiven l = (l.indirect_grid ≢ none) ⊎ NonZero l.grid

-- Three 32-bit counts at an aligned offset, or a grid that the device can cut into threadgroups.
abbrev pub Divides : Launch → Bool → Option Buffer → Type 0
Divides l non_uniform (some b) = (l.indirect_offset % 4 ≡ 0) × (l.indirect_offset + 12 ≤ b.size)
Divides l non_uniform none =
    (non_uniform ≡ true)
    ⊎ ((l.grid.x % l.threadgroup.x ≡ 0)
        × (l.grid.y % l.threadgroup.y ≡ 0)
        × (l.grid.z % l.threadgroup.z ≡ 0))

pub record Accepts (p : ComputePipeline) (l : Launch) (non_uniform : Bool) (max_memory : ℕ)
    : Type 0 where
  pub grid_given : GridGiven l
  pub threadgroup : NonZero l.threadgroup
  pub few_threads : threads l.threadgroup ≤ p.max_threads_per_threadgroup
  pub few_bindings : length l.buffers + length l.scalars ≤ 31
  pub arguments : Below (length l.buffers + length l.scalars) p.buffer_bindings
  pub threadgroup_arguments : Below (length l.threadgroup_memory) p.threadgroup_bindings
  pub memory : p.static_threadgroup_memory_length + total l.threadgroup_memory ≤ max_memory
  pub scalars : AreSmall l.scalars
  pub widths : All (IsWide (length l.buffers) l.scalars) p.buffer_bindings
  pub offsets : All StartsInside l.buffers
  pub divides : Divides l non_uniform l.indirect_grid

mul-bound : (a b m n : ℕ) → a ≤ m → b ≤ n → a * b ≤ m * n
mul-bound a b m n h k = grind arith

le-mul : (a b : ℕ) → 1 ≤ b → (a ≤ a * b) × (a ≤ b * a)
le-mul a b h = (grind arith, grind arith)

-- Sides within 2 ^ 21 do not wrap around.
volume_of_sides :
    (d : Dim3) → d.x ≤ 2 ^ 21 - 1 → d.y ≤ 2 ^ 21 - 1 → d.z ≤ 2 ^ 21 - 1 → volume d ≡ threads d
unfolding volume
volume_of_sides d hx hy hz =
    let side = 2 ^ 21 - 1 in
    let xy = mul-bound d.x d.y side side hx hy in
    let xyz = mul-bound (d.x * d.y) d.z (side * side) side xy hz in
    rw (mul64_of_lt d.x d.y (omega arith)) (mul64_of_lt (d.x * d.y) d.z (omega arith))

-- The sides of a threadgroup with few threads.
sides : (d : Dim3) (m : ℕ) → NonZero d → threads d ≤ m → (d.x ≤ m) × (d.y ≤ m) × (d.z ≤ m)
sides d m (x, y, z) h =
    let a = le-mul d.x d.y y in
    let b = le-mul d.y d.x x in
    let c = le-mul (d.x * d.y) d.z z in
    let e = le-mul d.z (d.x * d.y) (omega (arith, a)) in omega (arith, a, b, c, e)

check_extents_iff :
    (l : Launch) (m : ℕ)
    → m < 2 ^ 21
    → (check_extents l m ≡ ok tt)
      ↔ (GridGiven l × NonZero l.threadgroup × (threads l.threadgroup ≤ m))
unfolding check_extents
check_extents_iff l m hm = (
  λ h.
      let given : GridGiven l = elim (Option-cases l.indirect_grid) [
        | inl direct ↦ inr (ground arith)
        | inr (b, indirect) ↦ inl (λ e. cc)
      ] in
      let nonzero : NonZero l.threadgroup = ground arith in
      let x : l.threadgroup.x ≤ m = ground arith in
      let y : l.threadgroup.y ≤ m = ground arith in
      let z : l.threadgroup.z ≤ m = ground arith in
      let few : volume l.threadgroup ≤ m = ground arith in
      let exact = volume_of_sides l.threadgroup (omega arith) (omega arith) (omega arith) in
      (given, nonzero, omega (arith, exact)),
  λ h.
      let (x, y, z) = sides l.threadgroup m h.1 h.2 in
      let exact = volume_of_sides l.threadgroup (omega arith) (omega arith) (omega arith) in
      elim (Option-cases l.indirect_grid) [
        | inl direct ↦ ground (arith, h, exact)
        | inr (b, indirect) ↦ ground (arith, h, exact)
      ],
)

pub check_division_iff :
    (l : Launch) (non_uniform : Bool)
    → (check_division l non_uniform ≡ ok tt) ↔ Divides l non_uniform l.indirect_grid
unfolding check_division
check_division_iff l non_uniform = elim (Option-cases l.indirect_grid) [
  | inl direct ↦ (λ h. rw direct (ground arith), λ h. let k = (rw direct at h) in ground arith)
  | inr (b, indirect) ↦
      (λ h. rw indirect (ground arith), λ h. let k = (rw indirect at h) in ground arith)
]

validate_with_iff :
    (p : ComputePipeline) (l : Launch) (non_uniform : Bool) (max_memory : ℕ)
    → p.max_threads_per_threadgroup < 2 ^ 21
    → max_memory ≤ size_max
    → (validate_with p l non_uniform max_memory ≡ ok tt) ↔ Accepts p l non_uniform max_memory
unfolding validate_with
validate_with_iff p l nu m hm hs =
    let n = length l.buffers + length l.scalars in
    let static = p.static_threadgroup_memory_length in
    (
      λ h.
          let (extents, r1) = (>>_iff (check_extents l p.max_threads_per_threadgroup) _).0 h in
          let (few, r2) = (>>_iff (throw_if (ltb 31 n) (too_many_bindings n)) _).0 r1 in
          let (arguments, r3) = (>>_iff (check_arguments n p.buffer_bindings) _).0 r2 in
          let (given, r4) =
            (>>_iff
                (check_threadgroup_arguments (length l.threadgroup_memory) p.threadgroup_bindings)
                _).0
              r3 in
          let (memory, r5) = (>>_iff (check_memory m static l.threadgroup_memory) _).0 r4 in
          let (scalars, r6) = (>>_iff (check_scalar_sizes l.scalars) _).0 r5 in
          let (widths, r7) =
            (>>_iff (check_scalar_widths (length l.buffers) l.scalars p.buffer_bindings) _).0 r6 in
          let (offsets, divides) = (>>_iff (check_offsets 0 l.buffers) _).0 r7 in
          let (grid, nonzero, threads_few) = (check_extents_iff l _ hm).0 extents in
          record {
            grid_given = grid;
            threadgroup = nonzero;
            few_threads = threads_few;
            few_bindings = ground arith;
            arguments = (check_arguments_iff n p.buffer_bindings).0 arguments;
            threadgroup_arguments =
                (check_threadgroup_arguments_iff (length l.threadgroup_memory)
                    p.threadgroup_bindings).0
                  given;
            memory = (check_memory_iff m static l.threadgroup_memory hs).0 memory;
            scalars = (check_scalar_sizes_iff l.scalars).0 scalars;
            widths =
                (check_scalar_widths_iff (length l.buffers) l.scalars p.buffer_bindings).0 widths;
            offsets = (check_offsets_iff 0 l.buffers).0 offsets;
            divides = (check_division_iff l nu).0 divides;
          },
      λ a.
          rw
            (
              (check_extents_iff l _ hm).1 (a.grid_given, a.threadgroup, a.few_threads),
              (throw_if_iff (ltb 31 n) (too_many_bindings n)).1 (ground (arith, a.few_bindings)),
              (check_arguments_iff n p.buffer_bindings).1 a.arguments,
              (check_threadgroup_arguments_iff (length l.threadgroup_memory)
                    p.threadgroup_bindings).1
                  a.threadgroup_arguments,
              (check_memory_iff m static l.threadgroup_memory hs).1 a.memory,
              (check_scalar_sizes_iff l.scalars).1 a.scalars,
              (check_scalar_widths_iff (length l.buffers) l.scalars p.buffer_bindings).1 a.widths,
              (check_offsets_iff 0 l.buffers).1 a.offsets,
            )
            ((check_division_iff l nu).1 a.divides),
    )

validate-with :
    (p : ComputePipeline) (l : Launch) (non_uniform : Bool) (max_memory : ℕ)
    → l.pipeline ≡ some p
    → validate l non_uniform max_memory ≡ validate_with p l non_uniform max_memory
unfolding validate
validate-with p l nu m hp = ground arith

-- A launch passes `validate` exactly when its grid and threadgroup are non-empty, its threadgroup
-- has no more threads than the kernel supports, it has at most 31 bindings and covers every buffer
-- and threadgroup argument that the kernel uses, its threadgroup memory fits the device's budget
-- together with the kernel's own, its scalars are small and of whole elements, its buffers start
-- inside their bytes, and its indirect counts lie in their buffer or its grid can be divided. All
-- sums and products are those of true numbers: for a kernel of fewer than 2 ^ 21 threads nothing
-- wraps around.
pub validate_iff :
    (p : ComputePipeline) (l : Launch) (non_uniform : Bool) (max_memory : ℕ)
    → l.pipeline ≡ some p
    → p.max_threads_per_threadgroup < 2 ^ 21
    → max_memory ≤ size_max
    → (validate l non_uniform max_memory ≡ ok tt) ↔ Accepts p l non_uniform max_memory
validate_iff p l nu m hp hm hs = rw (validate-with p l nu m hp) (validate_with_iff p l nu m hm hs)
