-- ===== src/Examples/Runtime.antt =====
-- A process whose first two calls find no device and no queue.
use metal_runtime.Common.{◌≡◌, refl, [], ◌∷◌, none, some, codes, true, false}
use metal_runtime.Errors.{ok, throw, no_device, no_queue}
use metal_runtime.Runtime.{SystemDevice, MetalRuntime, calls}

abbrev gpu : SystemDevice
gpu = record {
  handle = 1;
  name = codes "Apple M2";
  unified_memory = true;
  recommended_working_set = 1000;
  threads_per_threadgroup_width = 1024;
  buffer_length = 4096;
  threadgroup_memory_length = 32768;
  supports_apple4 = true;
  supports_mac2 = false;
  new_command_queue = some 2;
}

abbrev made : MetalRuntime
made = record {
  device = gpu;
  queue = 2;
  non_uniform_threadgroups = true;
  max_threadgroup_memory = 32768;
}

later_device_ignored :
    calls none (none ∷ some (record gpu { new_command_queue = none }) ∷ some gpu ∷ none ∷ [])
    ≡ throw no_device ∷ throw no_queue ∷ ok made ∷ ok made ∷ []
unfolding calls
later_device_ignored = refl
