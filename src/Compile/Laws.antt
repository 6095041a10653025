-- ===== src/Compile/Laws.antt =====
-- When a source compiles, and under which options.
use metal_runtime.Common.{
  ◌≡◌, ◌↔◌, inl, inr, refl, sym, ap, ◌∙◌, subst, arith, Bool, true, false, Bool-cases, List, [],
  ◌∷◌, Option, none, some, Text, All, codes, if◌then◌else◌,
}
use metal_runtime.Compile.{
  MtlMathMode, math_mode_safe, math_mode_relaxed, math_mode_fast, MtlOptions, MtlDevice, to_mtl,
  is_not_safe, macro_name, macro_value, check_defines, build_macros, build_options, checked_library,
  compile,
}
use metal_runtime.Errors.{ok, >>=-eq-ok, >>-eq-ok, ok-injective}
use metal_runtime.Keys.{MathMode, safe, relaxed, fast, CompileOptions}
use metal_runtime.Specialize.Values.{IsText, to_ns_string_iff}
use metal_runtime.Specialize.{MtlLibrary}

abbrev pub AreText : MtlDevice → List (Text × Text) → Type 0
AreText device = All λ d. (IsText device.utf8 d.0 × IsText device.utf8 d.1)

check_defines_iff :
    (device : MtlDevice) (ds : List (Text × Text))
    → (check_defines device.utf8 ds ≡ ok tt) ↔ AreText device ds
unfolding check_defines
check_defines_iff device [] = (λ h. tt, λ h. refl)
check_defines_iff device ((n, v) ∷ ds) =
    let name = to_ns_string_iff device.utf8 n macro_name in
    let value = to_ns_string_iff device.utf8 v macro_value in
    let rest = check_defines_iff device ds in
    (
      λ h.
          let (a, h2) = >>-eq-ok _ _ h in
          let (b, c) = >>-eq-ok _ _ h2 in ((name.0 a, value.0 b), rest.0 c),
      λ h. rw (name.1 h.0.0, value.1 h.0.1) (rest.1 h.1),
    )

-- The macros that are set: none for no defines.
abbrev pub macros : List (Text × Text) → Option (List (Text × Text))
macros [] = none
macros (d ∷ ds) = some (d ∷ ds)

build_macros_iff :
    (device : MtlDevice) (ds : List (Text × Text)) (m : Option (List (Text × Text)))
    → (build_macros device.utf8 ds ≡ ok m) ↔ (AreText device ds × (m ≡ macros ds))
unfolding build_macros
build_macros_iff device [] m = (λ h. (tt, sym (ok-injective h)), λ h. ap ok (sym h.1))
build_macros_iff device (d ∷ ds) m =
    let checked = check_defines_iff device (d ∷ ds) in
    (
      λ h. let (a, b) = >>-eq-ok _ _ h in (checked.0 a, sym (ok-injective b)),
      λ h. rw (checked.1 h.0) (ap ok (sym h.1)),
    )

-- Metal's mode for each of the program's.
pub data Means : MathMode → MtlMathMode → Type 0 where
  means_safe : Means safe math_mode_safe
  means_relaxed : Means relaxed math_mode_relaxed
  means_fast : Means fast math_mode_fast

-- Whether the older flag is on.
pub data MeansFlag : MathMode → Bool → Type 0 where
  flag_safe : MeansFlag safe false
  flag_relaxed : MeansFlag relaxed true
  flag_fast : MeansFlag fast true

pub to_mtl-Means : (mode : MathMode) → Means mode (to_mtl mode)
unfolding to_mtl
to_mtl-Means safe = means_safe
to_mtl-Means relaxed = means_relaxed
to_mtl-Means fast = means_fast

pub Means-to_mtl : {mode : MathMode} {m : MtlMathMode} → Means mode m → to_mtl mode ≡ m
unfolding to_mtl
Means-to_mtl means_safe = refl
Means-to_mtl means_relaxed = refl
Means-to_mtl means_fast = refl

pub is_not_safe-MeansFlag : (mode : MathMode) → MeansFlag mode (is_not_safe mode)
unfolding is_not_safe
is_not_safe-MeansFlag safe = flag_safe
is_not_safe-MeansFlag relaxed = flag_relaxed
is_not_safe-MeansFlag fast = flag_fast

pub MeansFlag-is_not_safe : {mode : MathMode} {b : Bool} → MeansFlag mode b → is_not_safe mode ≡ b
unfolding is_not_safe
MeansFlag-is_not_safe flag_safe = refl
MeansFlag-is_not_safe flag_relaxed = refl
MeansFlag-is_not_safe flag_fast = refl

-- The options that Metal is given: the language version of macOS 26, the math mode from macOS 15 on and
-- the older flag before, and the macros.
abbrev pub Describes : MtlDevice → CompileOptions → MtlOptions → Type 0
Describes device o m =
    (m.language_version_4_0 ≡ device.macos_26)
    × (device.macos_15 ≡ true
        → ((mode : MtlMathMode) × Means o.math_mode mode × (m.math_mode ≡ some mode))
          × (m.fast_math_enabled ≡ none))
    × (device.macos_15 ≡ false
        → (m.math_mode ≡ none)
          × (flag : Bool) × MeansFlag o.math_mode flag
          × (m.fast_math_enabled ≡ some flag))
    × (m.preprocessor_macros ≡ macros o.defines)

-- The mode and the flag of described options, as the code computes them.
pub Describes-math_mode :
    (device : MtlDevice) (o : CompileOptions) (m : MtlOptions)
    → Describes device o m
    → device.macos_15 ≡ true
    → m.math_mode ≡ some (to_mtl o.math_mode)
Describes-math_mode device o m (_, newer, _, _) new =
    let ((mode, means, is), _) = newer new in is ∙ ap some (sym (Means-to_mtl means))

pub Describes-fast_math_enabled :
    (device : MtlDevice) (o : CompileOptions) (m : MtlOptions)
    → Describes device o m
    → device.macos_15 ≡ false
    → (m.math_mode ≡ none) × (m.fast_math_enabled ≡ some (is_not_safe o.math_mode))
Describes-fast_math_enabled device o m (_, _, older, _) old =
    let (unset, flag, means, is) = older old in
    (unset, is ∙ ap some (sym (MeansFlag-is_not_safe means)))

-- The options that `build_options` returns.
abbrev with_macros : MtlDevice → CompileOptions → Option (List (Text × Text)) → MtlOptions
with_macros device o set = record {
  language_version_4_0 = device.macos_26;
  math_mode = if device.macos_15 then some (to_mtl o.math_mode) else none;
  fast_math_enabled = if device.macos_15 then none else some (is_not_safe o.math_mode);
  preprocessor_macros = set;
}

abbrev given : MtlDevice → CompileOptions → MtlOptions
given device o = with_macros device o (macros o.defines)

given-Describes : (device : MtlDevice) (o : CompileOptions) → Describes device o (given device o)
given-Describes device o = (
  refl,
  λ h. ((to_mtl o.math_mode, to_mtl-Means o.math_mode, ground arith), ground arith),
  λ h. (ground arith, is_not_safe o.math_mode, is_not_safe-MeansFlag o.math_mode, ground arith),
  refl,
)

Describes-given :
    (device : MtlDevice) (o : CompileOptions) (m : MtlOptions)
    → Describes device o m
    → given device o ≡ m
Describes-given device o m (version, newer, older, defines) =
    let mode : (given device o).math_mode ≡ m.math_mode = elim (Bool-cases device.macos_15) [
      | inl new ↦
          let is : m.math_mode ≡ some (to_mtl o.math_mode) =
            Describes-math_mode device o m (version, newer, older, defines) new in
          ground arith
      | inr old ↦ let unset : m.math_mode ≡ none = (older old).0 in ground arith
    ] in
    let flag : (given device o).fast_math_enabled ≡ m.fast_math_enabled =
      elim (Bool-cases device.macos_15) [
        | inl new ↦ let (mode, unset) = newer new in ground arith
        | inr old ↦
            let is : m.fast_math_enabled ≡ some (is_not_safe o.math_mode) =
              (Describes-fast_math_enabled device o m (version, newer, older, defines) old).1 in
            ground arith
      ] in
    λ i. record {
      language_version_4_0 = sym version i;
      math_mode = mode i;
      fast_math_enabled = flag i;
      preprocessor_macros = sym defines i;
    }

pub build_options_iff :
    (device : MtlDevice) (o : CompileOptions) (m : MtlOptions)
    → (build_options device o ≡ ok m) ↔ (AreText device o.defines × Describes device o m)
unfolding build_options
build_options_iff device o m =
    let built = build_macros_iff device o.defines in
    (
      λ h.
          let (set, made, h2) = >>=-eq-ok (build_macros device.utf8 o.defines) _ h in
          let (texts, is) = (built set).0 made in
          let same : given device o ≡ m = ap (with_macros device o) (sym is) ∙ ok-injective h2 in
          (texts, subst (Describes device o) same (given-Describes device o)),
      λ h. rw ((built (macros o.defines)).1 (h.0, refl)) (ap ok (Describes-given device o m h.1)),
    )

checked_library_iff :
    (device : MtlDevice) (source : Text) (m : MtlOptions) (library : MtlLibrary)
    → (checked_library device source m ≡ ok library) ↔ (device.new_library source m ≡ some library)
unfolding checked_library
checked_library_iff device source m library = (λ h. ground arith, λ h. ground arith)

-- The library that a source and options stand for: the texts are ones that NSString takes whole, and Metal
-- makes the library from that source under the described options.
abbrev pub Compiles : MtlDevice → Text → CompileOptions → MtlLibrary → Type 0
Compiles device source o library =
    IsText device.utf8 source
    × AreText device o.defines
    × ((m : MtlOptions) × Describes device o m × (device.new_library source m ≡ some library))

-- A source compiles to a library exactly when it and every define are text that NSString takes whole,
-- and Metal makes the library from that source under the described options: the language version of
-- macOS 26 where there is one, the math mode asked for or, before macOS 15, a fast math flag that is
-- off for SAFE alone, and exactly the defines as macros.
pub compile_iff :
    (device : MtlDevice) (source : Text) (o : CompileOptions) (library : MtlLibrary)
    → (compile device source o ≡ ok library) ↔ Compiles device source o library
unfolding compile
compile_iff device source o library =
    let text = to_ns_string_iff device.utf8 source (codes "MSL source") in
    (
      λ h.
          let (passes, h2) = >>-eq-ok _ _ h in
          let (m, built, h3) = >>=-eq-ok (build_options device o) _ h2 in
          let (defines, described) = (build_options_iff device o m).0 built in
          (
            text.0 passes,
            defines,
            (m, described, (checked_library_iff device source m library).0 h3),
          ),
      λ h.
          let (good, defines, (m, described, made)) = h in
          rw (text.1 good, (build_options_iff device o m).1 (defines, described))
            ((checked_library_iff device source m library).1 made),
    )
