-- ===== src/Runtime.antt =====
-- src/runtime.h, src/runtime.cpp: `MetalRuntime`: its constructor, and the facts of its device.
pub mod Once
use metal_runtime.Common.{ℕ, Bool, ◌||◌, List, [], ◌∷◌, Option, none, some, Text}
use metal_runtime.Errors.{Result, ok, throw, no_device, no_queue}

-- What Metal reports of the default device; `new_command_queue` is null for `none`.
pub record SystemDevice : Type 0 where
  pub handle : ℕ
  pub name : Text
  pub unified_memory : Bool
  pub recommended_working_set : ℕ
  pub threads_per_threadgroup_width : ℕ
  pub buffer_length : ℕ
  pub threadgroup_memory_length : ℕ
  pub supports_apple4 : Bool
  pub supports_mac2 : Bool
  pub new_command_queue : Option ℕ

pub record MetalRuntime : Type 0 where
  pub device : SystemDevice
  pub queue : ℕ
  pub non_uniform_threadgroups : Bool
  pub max_threadgroup_memory : ℕ

-- The constructor, behind the first check.
unfoldable pub start_on : SystemDevice → Result MetalRuntime
start_on device = elim device.new_command_queue [
  | none ↦ throw no_queue
  | some q ↦ ok (record {
    device = device;
    queue = q;
    non_uniform_threadgroups = device.supports_apple4 || device.supports_mac2;
    max_threadgroup_memory = device.threadgroup_memory_length;
  })
]

-- `MetalRuntime()`, over what `MTL::CreateSystemDefaultDevice` returns.
unfoldable pub start : Option SystemDevice → Result MetalRuntime
unfolding start_on
start none = throw no_device
start (some device) = start_on device

-- `runtime()`: its static object, which is made by the first call whose construction returns, and what
-- the call returns. A construction that throws leaves it unmade.
unfoldable pub runtime :
    Option MetalRuntime → Option SystemDevice → Option MetalRuntime × Result MetalRuntime
unfolding start
runtime (some rt) device = (some rt, ok rt)
runtime none device = elim (start device) [ throw e ↦ (none, throw e) | ok rt ↦ (some rt, ok rt) ]

-- The results of calls in a row; the devices are what Metal reports at each.
unfoldable pub calls : Option MetalRuntime → List (Option SystemDevice) → List (Result MetalRuntime)
unfolding runtime
calls s [] = []
calls s (d ∷ ds) = let r = runtime s d in r.1 ∷ calls r.0 ds

-- `MRDeviceInfo`
pub record MrDeviceInfo : Type 0 where
  pub max_threads_per_threadgroup : ℕ
  pub max_threadgroup_memory_length : ℕ
  pub max_buffer_length : ℕ
  pub recommended_max_working_set_size : ℕ
  pub has_unified_memory : Bool
  pub supports_non_uniform_threadgroups : Bool

-- The getters that `mr_device_info` calls.
abbrev pub device_info : MetalRuntime → MrDeviceInfo
device_info rt = record {
  max_threads_per_threadgroup = rt.device.threads_per_threadgroup_width;
  max_threadgroup_memory_length = rt.max_threadgroup_memory;
  max_buffer_length = rt.device.buffer_length;
  recommended_max_working_set_size = rt.device.recommended_working_set;
  has_unified_memory = rt.device.unified_memory;
  supports_non_uniform_threadgroups = rt.non_uniform_threadgroups;
}
