-- ===== src/PyModule.antt =====
-- src/bindings.cpp: the functions that the module definition writes out itself: `Buffer.__dlpack__` and
-- `Buffer.__dlpack_device__`, and `device_info`.
pub mod Laws
use metal_runtime.Common.{
  ℕ, Bool, true, false, not, ◌&&◌, ◌||◌, List, [], ◌∷◌, Option, none, some, Text, codes, ◌==◌,
  if◌then◌else◌,
}
use metal_runtime.Common.Int.{ℤ, pos, negsuc}
use metal_runtime.Errors.{
  Result, ok, throw, ◌>>=◌, ◌>>◌, throw_if, dlpack_stream, dlpack_device, dlpack_copy,
}
use metal_runtime.PyBuffer.{HostArray, PyBuffer, to_dlpack_ndarray}
use metal_runtime.Runtime.{MetalRuntime}

-- A `dl_device` argument: None, a pair of ints, or an object that does not cast to one.
pub data DlDevice : Type 0 where
  device_none other_object : DlDevice
  device_pair : ℤ → ℤ → DlDevice

-- The keyword arguments of `__dlpack__`. `stream` is whether one is given, and `copy` is null for None;
-- `max_version` is not read.
pub record DlpackArguments : Type 0 where
  pub stream : Bool
  pub dl_device : DlDevice
  pub copy : Option Bool

-- `std::pair<int, int>{1, 0}`, and its test.
abbrev pub cpu_device : DlDevice
cpu_device = device_pair (pos 1) (pos 0)

abbrev pub is_cpu : ℤ → ℤ → Bool
is_cpu (pos m) (pos n) = m == 1 && n == 0
is_cpu (pos m) (negsuc n) = false
is_cpu (negsuc m) n = false

unfoldable pub is_other_device : DlDevice → Bool
is_other_device device_none = false
is_other_device other_object = true
is_other_device (device_pair m n) = not (is_cpu m n)

-- `copy.value_or(false)`
unfoldable pub value_or_false : Option Bool → Bool
value_or_false none = false
value_or_false (some b) = b

-- `Buffer.__dlpack__`
unfoldable pub dlpack : PyBuffer → DlpackArguments → Result HostArray
unfolding is_other_device value_or_false to_dlpack_ndarray
dlpack b a = do
  throw_if a.stream dlpack_stream
  throw_if (is_other_device a.dl_device) dlpack_device
  throw_if (value_or_false a.copy) dlpack_copy
  ok (to_dlpack_ndarray b)

-- `Buffer.__dlpack_device__`
abbrev pub dlpack_device_of : PyBuffer → DlDevice
dlpack_device_of b = cpu_device

-- A value of the dict of `device_info`.
pub data InfoValue : Type 0 where
  text : Text → InfoValue
  boolean : Bool → InfoValue
  number : ℕ → InfoValue

-- `device_info`: the entries of the dict, in the order of their insertion.
unfoldable pub device_info : MetalRuntime → List (Text × InfoValue)
device_info rt =
    (codes "name", text rt.device.name)
    ∷ (codes "unified_memory", boolean rt.device.unified_memory)
    ∷ (codes "recommended_max_working_set_size", number rt.device.recommended_working_set)
    ∷ (codes "max_threads_per_threadgroup", number rt.device.threads_per_threadgroup_width)
    ∷ (codes "max_threadgroup_memory_length", number rt.max_threadgroup_memory)
    ∷ (codes "max_buffer_length", number rt.device.buffer_length)
    ∷ (codes "supports_non_uniform_threadgroups", boolean rt.non_uniform_threadgroups)
    ∷ []
