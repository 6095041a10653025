-- ===== src/Examples/Entry.antt =====
-- Calls of the C API with out parameters.
use metal_runtime.Batch.{CommandBatch, Completion}
use metal_runtime.CApi.Contract.{
  is_ok, dispatch_name, BothRefuse, dispatch_by_batch, mr_dispatch-by_batch,
}
use metal_runtime.CApi.Entry.{mr_dispatch, mr_batch_add}
use metal_runtime.CApi.Answers.{stale, null, holds}
use metal_runtime.CApi.Answers.{Answer, mr_compile_library, mr_get_pipeline, mr_device_info}
use metal_runtime.CApi.Handles.{mr_get_pipeline-IsAnswer}
use metal_runtime.CApi.{MrLaunchDesc, build_launch}
use metal_runtime.Caches.{Reach, created, later, cleared}
use metal_runtime.Caches.Made.{IsBuilt, IsPipeline}
use metal_runtime.Compile.{MtlDevice}
use metal_runtime.Common.{◌≡◌, ◌⊎◌, refl, [], none, some, Text, codes, true, false}
use metal_runtime.Dispatch.{Launch, ComputePipeline}
use metal_runtime.Errors.{Error, ok, throw, unknown_math_mode, null_argument}
use metal_runtime.Errors.Translate.{
  mr_ok, mr_error_invalid_argument, mr_error_no_device, untouched, message, mr_guard,
}
use metal_runtime.Caches.{build_pipeline}
use metal_runtime.Examples.Compile.{gpu}
use metal_runtime.Examples.Specialize.{metal}
use metal_runtime.Examples.Batch.{fresh}
use metal_runtime.Examples.Dispatch.{kernel}
use metal_runtime.Lru.{Cache, init, clear}
use metal_runtime.Runtime.{start}

-- Only the first bytes of the source are read.
compiled :
    mr_compile_library true (ok gpu) (some (codes "x...")) 1 0 (some stale) (some untouched)
    ≡ ((mr_ok, some untouched), some (holds (record { library = metal })))
unfolding mr_compile_library mr_guard
compiled = refl

unknown_mode :
    mr_compile_library true (ok gpu) (some (codes "x")) 1 3 (some stale) (some untouched)
    ≡ ((mr_error_invalid_argument, some (message unknown_math_mode)), some null)
unfolding mr_compile_library mr_guard
unknown_mode = refl

-- `mr_device_info` does not clear its out parameter.
no_device_info :
    mr_device_info true (start none) (some stale) none ≡ ((mr_error_no_device, none), some stale)
unfolding mr_device_info start mr_guard
no_device_info = refl

no_batch :
    mr_batch_add true none none (some untouched)
    ≡ (none, (mr_error_invalid_argument, some (message (null_argument 0))))
unfolding mr_batch_add mr_guard
no_batch = refl

abbrev IsGpu : MtlDevice → Type 0
IsGpu device = device ≡ gpu

mr_get_pipeline-IsAnswer_example :
    (c' : Cache Text ComputePipeline) × (r : Answer ComputePipeline) × (mr_get_pipeline true gpu
        (some (metal, init 128))
        (some (codes "f"))
        (some stale)
        (some untouched)
        (λ c. clear c)
      ≡ some (some (metal, c'), r))
    × Reach (IsPipeline IsGpu metal) 128 c'
    × (((p : ComputePipeline) × (r ≡ ((mr_ok, some untouched), some (holds p)))
          × (p.label ≡ codes "f")
          × IsBuilt IsGpu metal (codes "f") [] p)
        ⊎ ((e : Error) × (build_pipeline gpu metal (codes "f") [] ≡ throw e)
            × (is_ok r.0.0 ≡ false)
            × (r.1 ≡ some null)))
mr_get_pipeline-IsAnswer_example =
    mr_get_pipeline-IsAnswer IsGpu true 128 gpu metal (codes "f") (init 128) stale (some untouched)
      (λ c. clear c) refl (λ c r. later r cleared) created

abbrev description : MrLaunchDesc
description = record {
  pipeline = some kernel;
  buffers = none;
  buffer_offsets = none;
  buffer_count = 0;
  scalars = none;
  scalar_sizes = none;
  scalar_count = 0;
  threadgroup_memory = none;
  threadgroup_memory_count = 0;
  grid = record { x = 64; y = 1; z = 1 };
  threadgroup = record { x = 0; y = 0; z = 0 };
}

abbrev finished : Completion
finished = record { elapsed = 5; failed = false }

mr_dispatch-by_batch_example :
    ((l : Launch)
      → build_launch dispatch_name (some description) ≡ ok l
      → mr_dispatch true (ok fresh) (some description) finished none
        ≡ dispatch_by_batch true (ok fresh) (some description) finished none)
    × ((b : CommandBatch) (e : Error)
        → ok fresh ≡ ok b
        → build_launch dispatch_name (some description) ≡ throw e
        → BothRefuse true none e
            (mr_dispatch true (ok fresh) (some description) finished none)
            (dispatch_by_batch true (ok fresh) (some description) finished none))
mr_dispatch-by_batch_example = mr_dispatch-by_batch true (ok fresh) (some description) finished none
