-- ===== src/Compile.antt =====
-- src/library.cpp: `to_mtl`, `build_options` and `Library`'s constructor.
pub mod Laws
pub mod Math
use metal_runtime.Common.{
  ℕ, Bool, true, false, not, List, [], ◌∷◌, Option, none, some, Text, codes, if◌then◌else◌,
}
use metal_runtime.Errors.{Result, ok, throw, ◌>>=◌, ◌>>◌, compile_failed}
use metal_runtime.Keys.{MathMode, safe, relaxed, fast, CompileOptions}
use metal_runtime.Reflection.{PipelineState, Binding}
use metal_runtime.Specialize.{MtlLibrary, to_ns_string}

-- `MTL::MathMode`
pub data MtlMathMode : Type 0 where
  math_mode_safe math_mode_relaxed math_mode_fast : MtlMathMode

-- What the setters of a new `MTL::CompileOptions` have set; `none` is left at Metal's default.
pub record MtlOptions : Type 0 where
  pub language_version_4_0 : Bool
  pub math_mode : Option MtlMathMode
  pub fast_math_enabled : Option Bool
  pub preprocessor_macros : Option (List (Text × Text))

-- What the program asks of an `MTL::Device` and of the system it runs on: the two availability checks,
-- whether NSString takes the bytes, `newLibrary`, and `newComputePipelineState` of a function with its
-- reflection.
pub record MtlDevice : Type 0 where
  pub macos_15 : Bool
  pub macos_26 : Bool
  pub utf8 : Text → Bool
  pub new_library : Text → MtlOptions → Option MtlLibrary
  pub new_pipeline : ℕ → Option PipelineState × Option (List Binding)

unfoldable pub to_mtl : MathMode → MtlMathMode
to_mtl safe = math_mode_safe
to_mtl relaxed = math_mode_relaxed
to_mtl fast = math_mode_fast

-- `mode != MathMode::Safe`
unfoldable pub is_not_safe : MathMode → Bool
is_not_safe safe = false
is_not_safe relaxed = true
is_not_safe fast = true

abbrev pub macro_name : Text
macro_name = codes "preprocessor macro name"

abbrev pub macro_value : Text
macro_value = codes "preprocessor macro value"

-- The loop over the defines.
unfoldable pub check_defines : (Text → Bool) → List (Text × Text) → Result (Unit {0})
unfolding to_ns_string
check_defines utf8 [] = ok tt
check_defines utf8 ((name, value) ∷ defines) = do
  to_ns_string utf8 name macro_name
  to_ns_string utf8 value macro_value
  check_defines utf8 defines

-- `setPreprocessorMacros`, which is not called without defines.
unfoldable pub build_macros :
    (Text → Bool) → List (Text × Text) → Result (Option (List (Text × Text)))
unfolding check_defines
build_macros utf8 [] = ok none
build_macros utf8 (d ∷ defines) = do check_defines utf8 (d ∷ defines); ok (some (d ∷ defines))

unfoldable pub build_options : MtlDevice → CompileOptions → Result MtlOptions
unfolding build_macros to_mtl is_not_safe
build_options device options = do
  macros ← build_macros device.utf8 options.defines
  ok (record {
    language_version_4_0 = device.macos_26;
    math_mode = if device.macos_15 then some (to_mtl options.math_mode) else none;
    fast_math_enabled = if device.macos_15 then none else some (is_not_safe options.math_mode);
    preprocessor_macros = macros;
  })

-- `newLibrary`, and the check of the library that it returns.
unfoldable pub checked_library : MtlDevice → Text → MtlOptions → Result MtlLibrary
checked_library device source options = elim (device.new_library source options) [
  | none ↦ throw compile_failed
  | some library ↦ ok library
]

-- `Library`'s constructor.
unfoldable pub compile : MtlDevice → Text → CompileOptions → Result MtlLibrary
unfolding to_ns_string build_options checked_library
compile device msl_source options = do
  to_ns_string device.utf8 msl_source (codes "MSL source")
  mtl_options ← build_options device options
  checked_library device msl_source mtl_options
