-- ===== src/Examples/Compile.antt =====
-- A library compiled on two versions of macOS.
use metal_runtime.Common.{
  ◌≡◌, ◌↔◌, refl, [], ◌∷◌, some, none, codes, text_eq, true, false, if◌then◌else◌,
}
use metal_runtime.Compile.{math_mode_fast, MtlOptions, MtlDevice, build_options, compile}
use metal_runtime.Compile.Laws.{Compiles, compile_iff}
use metal_runtime.Compile.Math.{IsExact, build_options-IsExact}
use metal_runtime.Errors.{ok, throw, nul_byte, compile_failed}
use metal_runtime.Examples.Keys.{options}
use metal_runtime.Examples.Reflection.{limits, bindings}
use metal_runtime.Examples.Specialize.{metal}
use metal_runtime.Keys.{safe, relaxed, fast, CompileOptions}

-- It compiles the one source `x`.
abbrev pub gpu : MtlDevice
gpu = record {
  macos_15 = true;
  macos_26 = false;
  utf8 = λ s. true;
  new_library = λ source o. if text_eq source (codes "x") then some metal else none;
  new_pipeline = λ fn. (some limits, some bindings);
}

abbrev old_gpu : MtlDevice
old_gpu = record gpu { macos_15 = false }

abbrev exact : CompileOptions
exact = record { math_mode = safe; defines = [] }

compiles : compile gpu (codes "x") options ≡ ok metal
unfolding compile
compiles = refl

fails : compile gpu (codes "y") options ≡ throw compile_failed
unfolding compile
fails = refl

nul_in_define :
    compile gpu (codes "x") (record { math_mode = safe; defines = (codes "N", 0 ∷ []) ∷ [] })
    ≡ throw (nul_byte (codes "preprocessor macro value"))
unfolding compile
nul_in_define = refl

abbrev fast_options : MtlOptions
fast_options = record {
  language_version_4_0 = false;
  math_mode = some math_mode_fast;
  fast_math_enabled = none;
  preprocessor_macros = some ((codes "N", codes "16") ∷ []);
}

builds_fast : build_options gpu options ≡ ok fast_options
unfolding build_options
builds_fast = refl

abbrev old_options : MtlOptions
old_options = record {
  language_version_4_0 = false;
  math_mode = none;
  fast_math_enabled = some false;
  preprocessor_macros = none;
}

builds_old : build_options old_gpu exact ≡ ok old_options
unfolding build_options
builds_old = refl

compile_iff_example :
    (compile gpu (codes "x") options ≡ ok metal) ↔ Compiles gpu (codes "x") options metal
compile_iff_example = compile_iff gpu (codes "x") options metal

build_options-IsExact_example : IsExact old_options ↔ (safe ≡ safe)
build_options-IsExact_example = build_options-IsExact old_gpu exact old_options builds_old

-- Before macOS 15, RELAXED is FAST: Metal is given the same options.
relaxed_is_fast :
    build_options old_gpu (record { math_mode = relaxed; defines = [] })
    ≡ build_options old_gpu (record { math_mode = fast; defines = [] })
unfolding build_options
relaxed_is_fast = refl
