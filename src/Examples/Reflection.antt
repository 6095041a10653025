-- ===== src/Examples/Reflection.antt =====
-- A kernel with a used buffer, an unused one and used threadgroup memory.
use metal_runtime.Common.{
  ℕ, ◌≡◌, ◌↔◌, ◌<◌, refl, List, [], ◌∷◌, none, some, All, codes, true, false,
}
use metal_runtime.Dispatch.{
  ComputePipeline, Launch, check_arguments, check_threadgroup_arguments, validate,
  rounded_threadgroup_length,
}
use metal_runtime.Word.{mul64}
use metal_runtime.Errors.{ok, throw, pipeline_build}
use metal_runtime.Reflection.{
  Binding, buffer_binding, threadgroup_binding, other_binding, PipelineState, build,
}
use metal_runtime.Reflection.Used.{is_buffer, is_threadgroup, described, build-described}

abbrev pub bindings : List Binding
bindings =
    record {
      used = false;
      index = 0;
      name = codes "ys";
      type = buffer_binding;
      buffer_data_size = 4;
    }
    ∷ record {
      used = true;
      index = 1;
      name = codes "tile";
      type = threadgroup_binding;
      buffer_data_size = 0;
    }
    ∷ record {
      used = true;
      index = 2;
      name = codes "xs";
      type = buffer_binding;
      buffer_data_size = 8;
    }
    ∷ record {
      used = true;
      index = 3;
      name = codes "t";
      type = other_binding 2;
      buffer_data_size = 0;
    }
    ∷ []

abbrev pub limits : PipelineState
limits = record {
  max_total_threads_per_threadgroup = 1024;
  thread_execution_width = 32;
  static_threadgroup_memory_length = 0;
}

pub built :
    build (codes "f") (some limits) (some bindings)
    ≡ ok (record {
      label = codes "f";
      buffer_bindings = record { index = 2; name = codes "xs"; data_size = 8 } ∷ [];
      threadgroup_bindings = record { index = 1; name = codes "tile"; data_size = 0 } ∷ [];
      max_threads_per_threadgroup = 1024;
      thread_execution_width = 32;
      static_threadgroup_memory_length = 0;
    })
unfolding build
built = refl

not_built : build (codes "f") none none ≡ throw pipeline_build
unfolding build
not_built = refl

build-described_example :
    (build (codes "f") (some limits) (some bindings) ≡ ok (described (codes "f") limits bindings))
    × ((n : ℕ)
        → (check_arguments n (described (codes "f") limits bindings).buffer_bindings ≡ ok tt)
          ↔ All (λ b. (is_buffer b ≡ true → b.index < n)) bindings)
    × ((n : ℕ)
        → (check_threadgroup_arguments n
              (described (codes "f") limits bindings).threadgroup_bindings
            ≡ ok tt)
          ↔ All (λ b. (is_threadgroup b ≡ true → b.index < n)) bindings)
build-described_example = build-described (codes "f") limits bindings

abbrev pub bound_kernel : ComputePipeline
bound_kernel = described (codes "f") limits bindings

-- Two buffers and a scalar, where the kernel reads index 2, and memory for `tile` at index 1.
abbrev bound_launch : Launch
bound_launch = record {
  pipeline = some bound_kernel;
  buffers =
      record { buffer = record { handle = 7; size = 64 }; offset = 0 }
      ∷ record { buffer = record { handle = 8; size = 64 }; offset = 16 }
      ∷ [];
  scalars = record { address = 9; size = 8 } ∷ [];
  threadgroup_memory = 0 ∷ 100 ∷ [];
  grid = record { x = 64; y = 1; z = 1 };
  threadgroup = record { x = 32; y = 1; z = 1 };
  indirect_grid = none;
  indirect_offset = 0;
}

bound_passes : validate bound_launch false 32768 ≡ ok tt
unfolding validate rounded_threadgroup_length mul64
bound_passes = refl
