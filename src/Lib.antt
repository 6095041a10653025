-- ===== src/Lib.antt =====
-- The native core of metal-runtime: launches of Metal compute kernels from C and Python.
--
-- Parts, and the files that model them (paths from the repository's root):
-- - src/dispatch.cpp, src/dispatch.h. Dispatch holds `Launch`, `ComputePipeline`, `validate` and
--   `default_threadgroup`; each loop of `validate` is a function named for what it checks. Batch holds
--   `CommandBatch`: a method takes the batch and returns the batch and a result, and the calls of Metal
--   are appended to the batch's `log`. Batch.Protocol states Metal's rules for a command buffer, and
--   Batch.Threads interleaves the critical sections of several threads as steps of a relation.
-- - src/lru.h. Lru holds `LruCache` with its list and its map; Lru.Refinement relates it to a list of
--   entries in order of use. The eviction loop runs on fuel, one more than the number of entries:
--   each round drops one entry, and the result is shown never to run out.
-- - src/library.cpp, src/library.h, src/runtime.cpp. Keys holds the two cache keys, `cache_key` with the
--   prefix of `library_for`, and `pipeline_key`; Text prints numbers as `std::to_string` does.
-- - src/runtime.cpp and src/library.cpp, `library_for` and `pipeline_for`. Caches holds both as two critical
--   sections over the cache; what other threads make of it in between is a parameter. Caches.Made says what
--   a value of a cache was made from, where Metal may answer each compilation differently.
-- - src/library.cpp, `build_options` and the constructor of `Library`. Compile holds them, and what Metal's
--   options are set to.
-- - src/runtime.cpp, the GPU trace capture. Capture holds the flag and the process's capture manager, which
--   code outside of the program also calls.
-- - src/library.cpp, src/metal.h, the function constants. Constant holds `coerce`, over the byte images of
--   Bytes and Bytes.Float; Specialize holds `to_ns_string` and `create_specialized`.
-- - src/bindings.cpp, `to_dim3` and the sizes of `PyBuffer`. Extent holds them.
-- - src/bindings.cpp, `PyBuffer`. PyBuffer holds its constructors and copies, with the allocation's bytes;
--   PyBuffer.Life is the relation of the buffers that calls can make.
-- - src/bindings.cpp, `parse_constants`. PyConstants holds it, with the sort by name;
--   PyConstants.Unordered is the dict without its order, a quotient.
-- - src/bindings.cpp, `PyKernel`. PyKernel holds its constructor over the two caches.
-- - src/bindings.cpp, `__dlpack__`, `__dlpack_device__` and `device_info`. PyModule holds them.
-- - src/bindings.cpp, `prepare` and `run`. PyLaunch holds them; a Python object is a number.
-- - src/bindings.cpp, `PyBatch`. PyBatch holds the methods over those of Batch, and PyBatch.Threads
--   interleaves them, on top of the steps of Batch.Threads.
-- - src/buffer.cpp, src/buffer.h. Buffer holds the two constructors over a `Device`.
-- - src/c_api.cpp, src/c_api.h. CApi.Memory holds `mr_wrap_buffer` and `mr_buffer_flush_to`, and CApi
--   `build_launch`; `mr_guard` is in Errors.Translate. CApi.Answers and CApi.Entry hold the entry points,
--   with their out parameters.
-- - src/dispatch.cpp, the constructor of `ComputePipeline`. Reflection holds it; Reflection.Origin is what
--   Metal reported of a pipeline.
-- - src/runtime.cpp, the constructor of `MetalRuntime`, its getters and `runtime()`. Runtime holds them; the
--   calls of its library cache are in Caches.
-- - src/dtype.cpp, src/dtype.h and the conversions of src/bindings.cpp. DType holds the table.
-- - src/errors.h, `mr_guard`, and the registrations of src/bindings.cpp. Errors holds the classes, and
--   every throw site as a value with what its message prints; a fallible function returns a `Result`.
--
-- How they meet: a C caller's description (CApi) or the arguments of a Python call (PyLaunch) become
-- a `Launch`, which `CommandBatch::add` validates
-- (Dispatch) and encodes (Batch); the pipeline comes from two caches (Caches, Lru) under injective keys
-- (Keys), and a miss compiles (Compile) or specializes and reflects (Specialize, Reflection); PyKernel
-- composes all of these.
--
-- A `size_t` is a native number, and the largest is `size_max`; sums and products that can wrap around
-- are written with `mul64`, and the others are shown to stay below it by the checks that precede them.
-- A read out of bounds or through a null pointer is the value `undefined_behaviour`.
--
-- Metal, the Mach kernel, nanobind and the C library are not under src/: what they report is a
-- parameter (`Device`, the regions of `region_is_mapped_rw`, `Completion`, `Answers`, `MtlDevice`
-- with `newLibrary` and the availability checks, `MtlLibrary`, the first bytes of an allocation).
--
-- Not modelled: the texts of messages beyond the values in them, reference counts,
-- autorelease pools and the functions of the C API that free handles and messages (but `mr_release_batch`), and the registrations of the module definition of src/bindings.cpp with their docs
-- and texts of `__repr__`.
pub mod Common
pub mod Text
pub mod Errors
pub mod DType
pub mod Bytes
pub mod Keys
pub mod Constant
pub mod Specialize
pub mod Lru
pub mod Caches
pub mod Compile
pub mod Capture
pub mod Extent
pub mod Word
pub mod Buffer
pub mod Dispatch
pub mod Reflection
pub mod Batch
pub mod Runtime
pub mod CApi
pub mod PyBuffer
pub mod PyConstants
pub mod PyKernel
pub mod PyLaunch
pub mod PyBatch
pub mod PyModule
pub mod Examples
