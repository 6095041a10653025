-- ===== src/Examples/Dispatch.antt =====
-- A kernel with one buffer and one scalar, and launches of it.
use metal_runtime.Common.{◌≡◌, ◌↔◌, refl, arith, [], ◌∷◌, none, some, codes, true}
use metal_runtime.Dispatch.{
  Dim3, ComputePipeline, Launch, validate, check_extents, default_threadgroup,
  rounded_threadgroup_length,
}
use metal_runtime.Dispatch.Defined.{IsDefined, validate-IsDefined}
use metal_runtime.Dispatch.Threadgroup.{IsSane, check_extents-default_threadgroup}
use metal_runtime.Dispatch.Validate.{Accepts, validate_iff}
use metal_runtime.Errors.{ok}
use metal_runtime.Word.{mul64}

abbrev pub kernel : ComputePipeline
kernel = record {
  label = codes "saxpy";
  buffer_bindings =
      record { index = 0; name = codes "xs"; data_size = 4 }
      ∷ record { index = 1; name = codes "a"; data_size = 4 }
      ∷ [];
  threadgroup_bindings = [];
  max_threads_per_threadgroup = 1024;
  thread_execution_width = 32;
  static_threadgroup_memory_length = 64;
}

abbrev pub grid : Dim3
grid = record { x = 5000; y = 1; z = 1 }

abbrev pub threadgroup : Dim3
threadgroup = record { x = 1024; y = 1; z = 1 }

abbrev pub launch : Launch
launch = record {
  pipeline = some kernel;
  buffers = record { buffer = record { handle = 7; size = 20000 }; offset = 0 } ∷ [];
  scalars = record { address = 9; size = 4 } ∷ [];
  threadgroup_memory = 100 ∷ [];
  grid = grid;
  threadgroup = threadgroup;
  indirect_grid = none;
  indirect_offset = 0;
}

launch_passes : validate launch true 32768 ≡ ok tt
unfolding validate rounded_threadgroup_length mul64
launch_passes = refl

validate_iff_example : (validate launch true 32768 ≡ ok tt) ↔ Accepts kernel launch true 32768
validate_iff_example = validate_iff kernel launch true 32768 refl (omega arith) (omega arith)

validate-IsDefined_example : IsDefined (validate launch true 32768)
validate-IsDefined_example = validate-IsDefined launch true 32768

kernel-IsSane : IsSane kernel
kernel-IsSane = record { some_thread = omega arith; simd_fits = omega arith; small = omega arith }

kernel_default : default_threadgroup kernel grid ≡ threadgroup
unfolding default_threadgroup
kernel_default = refl

check_extents-default_threadgroup_example : check_extents launch 1024 ≡ ok tt
unfolding default_threadgroup
check_extents-default_threadgroup_example =
    check_extents-default_threadgroup kernel launch kernel-IsSane (omega arith) (omega arith)
      (omega arith) refl
