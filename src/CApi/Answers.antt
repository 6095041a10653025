-- ===== src/CApi/Answers.antt =====
-- src/c_api.cpp: the entry points with an out parameter: `mr_compile_library`, `mr_get_pipeline`,
-- `mr_device_info` and `mr_pipeline_info`. `rt` is what `runtime()` returns, or the error that it throws;
-- `malloc` is whether the copy of a message can be allocated.
use metal_runtime.Caches.{Library, compile_with, pipeline_for}
use metal_runtime.Compile.{MtlDevice}
use metal_runtime.Specialize.{MtlLibrary}
use metal_runtime.Common.{
  ℕ, Bool, true, false, [], Option, none, some, Text, take, length, ltb, ◌==◌, if◌then◌else◌,
}
use metal_runtime.Dispatch.{ComputePipeline}
use metal_runtime.Errors.{
  Result, ok, throw, ◌>>=◌, ◌>>◌, throw_if, undefined_behaviour, null_argument, unknown_math_mode,
}
use metal_runtime.Errors.Translate.{MrStatus, Message, mr_guard}
use metal_runtime.Keys.{MathMode, safe, relaxed, fast}
use metal_runtime.Lru.{Cache}
use metal_runtime.Runtime.{MetalRuntime, MrDeviceInfo, device_info}

-- What an out parameter leads to: whatever the caller left there, null, or a new handle.
pub data Slot (A : Type 0) : Type 0 where
  stale null : Slot A
  holds : A → Slot A

-- A null out pointer is `none`.
abbrev pub Out : Type 0 → Type 0
Out A = Option (Slot A)

abbrev pub is_null {ℓ} : {A : Type ℓ} → Option A → Bool
is_null none = true
is_null (some a) = false

-- A pointer argument, and its position among the checks of the entry point.
abbrev pub required : {A : Type 0} → ℕ → Option A → Result A
required position none = throw (null_argument position)
required position (some a) = ok a

-- `if (out) *out = nullptr;`, and `*out = …` at the end of a body that returns.
abbrev pub publish : {A : Type 0} → Out A → Result A → Out A
publish none made = none
publish (some s) (ok a) = some (holds a)
publish (some s) (throw e) = some null

-- A status, the message and an out parameter.
abbrev pub Answer : Type 0 → Type 0
Answer A = (MrStatus × Option Message) × Out A

-- An entry point that clears its out parameter and then runs a body under `mr_guard`.
abbrev pub answer : {A : Type 0} → Bool → Option Message → Out A → Result A → Answer A
answer malloc message out made = (mr_guard malloc message made, publish out made)

-- The switch on `math_mode`.
unfoldable pub read_math_mode : ℕ → Result MathMode
read_math_mode n =
    if n == 0
    then ok safe
    else if n == 1
    then ok relaxed
    else if n == 2
    then ok fast
    else throw unknown_math_mode

-- `std::string(data, size)`: a read past the caller's bytes is undefined.
abbrev pub read_text : Text → ℕ → Result Text
read_text bytes size =
    if ltb (length bytes) size then throw undefined_behaviour else ok (take size bytes)

unfoldable pub compile_library :
    Result MtlDevice → Out Library → Option Text → ℕ → ℕ → Result Library
unfolding read_math_mode compile_with
compile_library rt out msl_source size math_mode = do
  throw_if (is_null out) (null_argument 0)
  bytes ← required 1 msl_source
  mode ← read_math_mode math_mode
  device ← rt
  source ← read_text bytes size
  compile_with device source (record { math_mode = mode; defines = [] })

unfoldable pub mr_compile_library :
    Bool → Result MtlDevice → Option Text → ℕ → ℕ → Out Library → Option Message → Answer Library
unfolding compile_library
mr_compile_library malloc rt msl_source size math_mode out message =
    answer malloc message out (compile_library rt out msl_source size math_mode)

-- The body of `mr_get_pipeline` once no pointer is null, with the library's cache that it leaves.
-- No constants are given.
unfoldable pub get_pipeline :
    MtlDevice
    → MtlLibrary
    → Cache Text ComputePipeline
    → Text
    → (Cache Text ComputePipeline → Cache Text ComputePipeline)
    → Option (Cache Text ComputePipeline × Result ComputePipeline)
unfolding pipeline_for
get_pipeline device library pipelines function_name others =
    pipeline_for device library function_name [] others pipelines

-- The checks of `mr_get_pipeline`.
unfoldable pub check_pipeline_arguments :
    Out ComputePipeline
    → Option (MtlLibrary × Cache Text ComputePipeline)
    → Option Text
    → Result ((MtlLibrary × Cache Text ComputePipeline) × Text)
check_pipeline_arguments out library function_name = do
  throw_if (is_null out) (null_argument 0)
  l ← required 1 library
  name ← required 2 function_name
  ok (l, name)

-- An `MRLibrary` is its compiled library and its cache of pipelines. The result is the library that is
-- left behind, and the answer; `others` is what other threads do to that cache while the pipeline is
-- built, and `none` is an eviction that does not end.
unfoldable pub mr_get_pipeline :
    Bool
    → MtlDevice
    → Option (MtlLibrary × Cache Text ComputePipeline)
    → Option Text
    → Out ComputePipeline
    → Option Message
    → (Cache Text ComputePipeline → Cache Text ComputePipeline)
    → Option (Option (MtlLibrary × Cache Text ComputePipeline) × Answer ComputePipeline)
unfolding get_pipeline check_pipeline_arguments
mr_get_pipeline malloc device library function_name out message others =
    elim (check_pipeline_arguments out library function_name) [
      | throw e ↦ some (library, answer malloc message out (throw e))
      | ok checked ↦ elim (get_pipeline device checked.0.0 checked.0.1 checked.1 others) [
        | none ↦ none
        | some r ↦ some (some (checked.0.0, r.0), answer malloc message out r.1)
      ]
    ]

-- `*out = …` of a body that does not clear it first.
abbrev pub write : {A : Type 0} → Out A → Result A → Out A
write none made = none
write (some s) (ok a) = some (holds a)
write (some s) (throw e) = some s

unfoldable pub mr_device_info :
    Bool → Result MetalRuntime → Out MrDeviceInfo → Option Message → Answer MrDeviceInfo
mr_device_info malloc rt out message =
    let made : Result MrDeviceInfo = (do
      throw_if (is_null out) (null_argument 0)
      r ← rt
      ok (device_info r)) in
    (mr_guard malloc message made, write out made)

-- `MRPipelineInfo`
pub record MrPipelineInfo : Type 0 where
  pub thread_execution_width : ℕ
  pub max_threads_per_threadgroup : ℕ
  pub static_threadgroup_memory_length : ℕ

unfoldable pub mr_pipeline_info :
    Bool → Option ComputePipeline → Out MrPipelineInfo → Option Message → Answer MrPipelineInfo
mr_pipeline_info malloc pipeline out message =
    let made : Result MrPipelineInfo = (do
      p ← required 0 pipeline
      throw_if (is_null out) (null_argument 1)
      ok (record {
        thread_execution_width = p.thread_execution_width;
        max_threads_per_threadgroup = p.max_threads_per_threadgroup;
        static_threadgroup_memory_length = p.static_threadgroup_memory_length;
      })) in
    (mr_guard malloc message made, write out made)
