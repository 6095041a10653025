-- ===== src/PyKernel.antt =====
-- src/bindings.cpp: `PyKernel`: its constructor, over the two caches, and `function_name`.
pub mod Laws
pub mod Order
pub mod Run
use metal_runtime.Caches.{Library, library_for, pipeline_for}
use metal_runtime.Common.{List, Option, none, some, Text}
use metal_runtime.Compile.{MtlDevice}
use metal_runtime.Dispatch.{ComputePipeline}
use metal_runtime.Errors.{Result, ok, throw, ◌>>=◌}
use metal_runtime.Keys.{MathMode, CompileOptions, FunctionConstant}
use metal_runtime.Lru.{Cache}
use metal_runtime.PyConstants.{PyValue, parse_constants}

-- The arguments of `Kernel(…)`.
pub record Arguments : Type 0 where
  pub msl_source : Text
  pub function_name : Text
  pub math_mode : MathMode
  pub defines : List (Text × Text)
  pub constants : List (Text × PyValue)

pub record PyKernel : Type 0 where
  pub math_mode : MathMode
  pub library : Library
  pub pipeline : ComputePipeline

-- `function_name`
abbrev pub function_name : PyKernel → Text
function_name k = k.pipeline.label

-- What a construction leaves behind: the runtime's cache, the cache of the library that it asked for a
-- pipeline, and the kernel or the error.
pub record Outcome : Type 0 where
  pub libraries : Cache Text Library
  pub used : Option (Library × Cache Text ComputePipeline)
  pub result : Result PyKernel

-- What the constructor finds in a library's cache of pipelines when it asks, and what other threads make
-- of it while the pipeline is built outside of the lock.
abbrev pub Pipelines : Type 0
Pipelines =
    Library → Cache Text ComputePipeline × (Cache Text ComputePipeline → Cache Text ComputePipeline)

-- Behind `pipeline_for`; `none` is an eviction that does not end.
unfoldable pub made_kernel :
    MathMode
    → Library
    → Cache Text Library
    → Option (Cache Text ComputePipeline × Result ComputePipeline)
    → Option Outcome
made_kernel mode library libraries none = none
made_kernel mode library libraries (some (pipelines, made)) = some (record {
  libraries = libraries;
  used = some (library, pipelines);
  result = do
    p ← made
    ok (record { math_mode = mode; library = library; pipeline = p });
})

-- Behind `parse_constants`.
unfoldable pub with_constants :
    MtlDevice
    → Pipelines
    → Arguments
    → Library
    → Cache Text Library
    → Result (List FunctionConstant)
    → Option Outcome
unfolding made_kernel pipeline_for
with_constants device pipelines a library libraries (throw e) =
    some (record { libraries = libraries; used = none; result = throw e })
with_constants device pipelines a library libraries (ok cs) =
    made_kernel a.math_mode library libraries (
      pipeline_for device library.library a.function_name cs (pipelines library).1
        (pipelines library).0)

-- Behind `library_for`.
unfoldable pub with_library :
    MtlDevice
    → Pipelines
    → Arguments
    → Option (Cache Text Library × Result Library)
    → Option Outcome
unfolding with_constants parse_constants
with_library device pipelines a none = none
with_library device pipelines a (some (libraries, throw e)) =
    some (record { libraries = libraries; used = none; result = throw e })
with_library device pipelines a (some (libraries, ok library)) =
    with_constants device pipelines a library libraries (parse_constants a.constants)

-- `CompileOptions{math_mode, defines}`
abbrev pub options_of : Arguments → CompileOptions
options_of a = record { math_mode = a.math_mode; defines = a.defines }

-- The constructor. `others` is what other threads make of the runtime's cache while the library is
-- compiled outside of the lock.
unfoldable pub construct_kernel :
    MtlDevice
    → Pipelines
    → Arguments
    → (Cache Text Library → Cache Text Library)
    → Cache Text Library
    → Option Outcome
unfolding with_library library_for
construct_kernel device pipelines a others libraries =
    with_library device pipelines a
      (library_for device a.msl_source (options_of a) others libraries)
