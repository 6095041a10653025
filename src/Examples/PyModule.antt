-- ===== src/Examples/PyModule.antt =====
-- Exports of a buffer through DLPack, and the facts of a device.
use metal_runtime.Common.{◌≡◌, refl, true, false, some, [], ◌∷◌, codes}
use metal_runtime.Common.Int.{pos}
use metal_runtime.Errors.{ok, throw, dlpack_device, dlpack_copy}
use metal_runtime.Examples.PyBuffer.{held}
use metal_runtime.PyBuffer.{to_dlpack_ndarray}
use metal_runtime.PyModule.{
  device_pair, cpu_device, DlpackArguments, dlpack, device_info, text, boolean, number,
}
use metal_runtime.Runtime.{MetalRuntime}

abbrev arguments : DlpackArguments
arguments = record { stream = false; dl_device = cpu_device; copy = some false }

exports : dlpack held arguments ≡ ok (to_dlpack_ndarray held)
unfolding dlpack
exports = refl

-- `(2, 0)` is CUDA's first device.
other_device :
    dlpack held (record arguments { dl_device = device_pair (pos 2) (pos 0) }) ≡ throw dlpack_device
unfolding dlpack
other_device = refl

no_copies : dlpack held (record arguments { copy = some true }) ≡ throw dlpack_copy
unfolding dlpack
no_copies = refl

facts :
    (rt : MetalRuntime)
    → device_info (record rt { max_threadgroup_memory = 32768; non_uniform_threadgroups = true })
      ≡ (codes "name", text rt.device.name)
        ∷ (codes "unified_memory", boolean rt.device.unified_memory)
        ∷ (codes "recommended_max_working_set_size", number rt.device.recommended_working_set)
        ∷ (codes "max_threads_per_threadgroup", number rt.device.threads_per_threadgroup_width)
        ∷ (codes "max_threadgroup_memory_length", number 32768)
        ∷ (codes "max_buffer_length", number rt.device.buffer_length)
        ∷ (codes "supports_non_uniform_threadgroups", boolean true)
        ∷ []
unfolding device_info
facts rt = refl
