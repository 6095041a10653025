-- ===== src/Compile/Math.antt =====
-- What the options that Metal is given keep of those asked for.
use metal_runtime.Common.{
  ◌≡◌, ◌↔◌, ◌⊎◌, inl, inr, refl, sym, ap, ◌∙◌, arith, true, false, Bool-cases, List, [], ◌∷◌, none,
  some, Text,
}
use metal_runtime.Compile.Laws.{
  macros, Describes-math_mode, Describes-fast_math_enabled, build_options_iff,
}
use metal_runtime.Compile.{
  math_mode_safe, MtlOptions, MtlDevice, to_mtl, is_not_safe, build_options,
}
use metal_runtime.Errors.{ok, some-injective}
use metal_runtime.Keys.{MathMode, safe, relaxed, fast, CompileOptions}

-- Metal keeps to IEEE arithmetic: under its safe mode, or without a mode when fast math is off.
abbrev pub IsExact : MtlOptions → Type 0
IsExact m =
    (m.math_mode ≡ some math_mode_safe)
    ⊎ ((m.math_mode ≡ none) × (m.fast_math_enabled ≡ some false))

to_mtl-safe : (mode : MathMode) → (to_mtl mode ≡ math_mode_safe) ↔ (mode ≡ safe)
unfolding to_mtl
to_mtl-safe safe = (λ h. refl, λ h. refl)
to_mtl-safe relaxed = (λ h. cc, λ h. cc)
to_mtl-safe fast = (λ h. cc, λ h. cc)

is_not_safe-safe : (mode : MathMode) → (is_not_safe mode ≡ false) ↔ (mode ≡ safe)
unfolding is_not_safe
is_not_safe-safe safe = (λ h. refl, λ h. refl)
is_not_safe-safe relaxed = (λ h. cc, λ h. cc)
is_not_safe-safe fast = (λ h. cc, λ h. cc)

to_mtl-injective : (m n : MathMode) → to_mtl m ≡ to_mtl n → m ≡ n
unfolding to_mtl
to_mtl-injective m n h = ground arith

macros-injective : (ds es : List (Text × Text)) → macros ds ≡ macros es → ds ≡ es
macros-injective [] [] h = refl
macros-injective [] (e ∷ es) h = cc
macros-injective (d ∷ ds) [] h = cc
macros-injective (d ∷ ds) (e ∷ es) h = some-injective h

-- On every version of macOS, the options that are built make Metal keep to IEEE arithmetic exactly when
-- the mode asked for is SAFE: no other mode does, and no version loses it.
pub build_options-IsExact :
    (device : MtlDevice) (o : CompileOptions) (m : MtlOptions)
    → build_options device o ≡ ok m
    → IsExact m ↔ (o.math_mode ≡ safe)
build_options-IsExact device o m built =
    let described = ((build_options_iff device o m).0 built).1 in
    let newer = Describes-math_mode device o m described in
    let older = Describes-fast_math_enabled device o m described in
    elim (Bool-cases device.macos_15) [
      | inl new ↦ (
        λ h. elim h [
          | inl exact ↦ (to_mtl-safe o.math_mode).0 (some-injective (sym (newer new) ∙ exact))
          | inr (unset, _) ↦
              let e : some (to_mtl o.math_mode) ≡ none = sym (newer new) ∙ unset in cc
        ],
        λ h. inl (newer new ∙ ap some ((to_mtl-safe o.math_mode).1 h)),
      )
      | inr old ↦ (
        λ h. elim h [
          | inl exact ↦ let e : none ≡ some math_mode_safe = sym (older old).0 ∙ exact in cc
          | inr (_, off) ↦
              (is_not_safe-safe o.math_mode).0 (some-injective (sym (older old).1 ∙ off))
        ],
        λ h. inr ((older old).0, (older old).1 ∙ ap some ((is_not_safe-safe o.math_mode).1 h)),
      )
    ]

-- Two sets of options that Metal cannot tell apart have the same defines, and from macOS 15 on they are
-- the same.
pub build_options-injective :
    (device : MtlDevice) (o p : CompileOptions) (m : MtlOptions)
    → build_options device o ≡ ok m
    → build_options device p ≡ ok m
    → (o.defines ≡ p.defines) × (device.macos_15 ≡ true → o ≡ p)
build_options-injective device o p m first second =
    let (_, (version, modes, flags, set)) = (build_options_iff device o m).0 first in
    let (_, (version', modes', flags', set')) = (build_options_iff device p m).0 second in
    let newer = Describes-math_mode device o m (version, modes, flags, set) in
    let newer' = Describes-math_mode device p m (version', modes', flags', set') in
    let defines = macros-injective o.defines p.defines (sym set ∙ set') in
    (
      defines,
      λ new.
          let mode =
            to_mtl-injective o.math_mode p.math_mode
              (some-injective (sym (newer new) ∙ newer' new)) in
          λ i. record { math_mode = mode i; defines = defines i },
    )
