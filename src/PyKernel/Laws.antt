-- ===== src/PyKernel/Laws.antt =====
-- What a `PyKernel` is made from.
use metal_runtime.Caches.{Library, build_pipeline, Reach}
use metal_runtime.Caches.Made.{IsCompiled, IsBuilt, IsLibrary, IsPipeline}
use metal_runtime.Common.{ℕ, ◌≡◌, ◌⊎◌, List, Option, none, some, Text}
use metal_runtime.Compile.{MtlDevice, compile}
use metal_runtime.Dispatch.{ComputePipeline}
use metal_runtime.Errors.{Error, ok, throw}
use metal_runtime.Keys.{FunctionConstant}
use metal_runtime.Lru.{Cache}
use metal_runtime.PyConstants.{parse_constants}
use metal_runtime.PyKernel.{Arguments, PyKernel, function_name, Outcome}

-- The kernel is what was asked for. Metal compiled its library from the source, in the math mode and with
-- the defines; the dict's constants are read, and Metal made its pipeline of the function that the name
-- and these constants stand for in that library.
abbrev pub IsAsked : (MtlDevice → Type 0) → Arguments → PyKernel → Type 0
IsAsked Metal a k =
    (k.math_mode ≡ a.math_mode)
    × IsCompiled Metal a.msl_source (record { math_mode = a.math_mode; defines = a.defines })
        k.library
    × (function_name k ≡ a.function_name)
    × ((cs : List FunctionConstant) × (parse_constants a.constants ≡ ok cs)
        × IsBuilt Metal k.library.library a.function_name cs k.pipeline)

-- Why there is no kernel: the source does not compile, a constant cannot be read, or the pipeline
-- cannot be built from the library that was asked for.
abbrev pub IsRefused : (MtlDevice → Type 0) → MtlDevice → Arguments → Error → Type 0
IsRefused Metal device a e =
    (compile device a.msl_source (record { math_mode = a.math_mode; defines = a.defines })
      ≡ throw e)
    ⊎ (parse_constants a.constants ≡ throw e)
    ⊎ ((l : Library) × (cs : List FunctionConstant) × IsCompiled Metal a.msl_source
          (record { math_mode = a.math_mode; defines = a.defines }) l
        × (parse_constants a.constants ≡ ok cs)
        × (build_pipeline device l.library a.function_name cs ≡ throw e))

-- The cache of the library that was used is again in a state that calls can bring it to.
abbrev pub Keeps : (MtlDevice → Type 0) → ℕ → Option (Library × Cache Text ComputePipeline) → Type 0
Keeps Metal limit none = Unit
Keeps Metal limit (some (l, c)) = Reach (IsPipeline Metal l.library) limit c

abbrev pub Constructed :
    (MtlDevice → Type 0) → ℕ → ℕ → MtlDevice → Arguments → Option Outcome → Type 0
Constructed Metal limit pipeline_limit device a outcome =
    (o : Outcome) × (outcome ≡ some o)
    × Reach (IsLibrary Metal) limit o.libraries
    × Keeps Metal pipeline_limit o.used
    × (((k : PyKernel) × (o.result ≡ ok k) × IsAsked Metal a k)
        ⊎ ((e : Error) × (o.result ≡ throw e) × IsRefused Metal device a e))
