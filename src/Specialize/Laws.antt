-- ===== src/Specialize/Laws.antt =====
-- When `create_specialized` returns, and with what.
use metal_runtime.Common.{
  ℕ, ◌≡◌, ◌↔◌, ◌⊎◌, inl, inr, refl, sym, ap, ◌∙◌, subst, arith, true, false, ◌&&◌, Bool-cases,
  Option-cases, List, [], ◌∷◌, some, Text, codes,
}
use metal_runtime.Errors.{ok, >>=-eq-ok, >>-eq-ok, ok-injective, some-injective}
use metal_runtime.Keys.{FunctionConstant}
use metal_runtime.Specialize.{
  Probe, Setting, MtlLibrary, to_ns_string, is_empty, set_values, specialize_with,
  specialize_checked, specialize_probe, specialize_found, create_specialized,
}
use metal_runtime.Specialize.Values.{
  IsText, to_ns_string_iff, AllGiven, missing_iff, AreSettings, set_values_iff, AreSettings-unknown,
}

-- The probe declares no constants, none are given, and it is returned.
abbrev pub IsPlain : List FunctionConstant → Probe → ℕ → Type 0
IsPlain cs p f = (p.declared ≡ []) × (cs ≡ []) × (p.function ≡ f)

-- Constants are declared or given, and the function that is returned is the one that Metal makes of
-- the given constants, each under its declared type.
abbrev pub IsSpecialized : MtlLibrary → Text → List FunctionConstant → Probe → ℕ → Type 0
IsSpecialized lib name cs p f =
    ((is_empty p.declared && is_empty cs) ≡ false)
    × AllGiven cs p.declared
    × (vs : List Setting) × AreSettings lib p.declared cs vs
    × (lib.specialize name vs ≡ some f)

-- The function that a name and constants stand for.
pub record Specializes (lib : MtlLibrary) (name : Text) (cs : List FunctionConstant) (f : ℕ)
    : Type 0 where
  pub text : IsText lib.utf8 name
  pub probe : Probe
  pub found : lib.probe name ≡ some probe
  pub function : IsPlain cs probe f ⊎ IsSpecialized lib name cs probe f

specialize_with_iff :
    (lib : MtlLibrary) (name : Text) (vs : List Setting) (f : ℕ)
    → (specialize_with lib name vs ≡ ok f) ↔ (lib.specialize name vs ≡ some f)
unfolding specialize_with
specialize_with_iff lib name vs f = elim (Option-cases (lib.specialize name vs)) [
  | inl failed ↦ (λ h. absurd (ground arith), λ h. absurd (ground arith))
  | inr (g, made) ↦ (
    λ h. let e : ok g ≡ ok f = ground arith in made ∙ ap some (ok-injective e),
    λ h. ground arith,
  )
]

specialize_checked_iff :
    (lib : MtlLibrary) (name : Text) (cs : List FunctionConstant) (p : Probe) (f : ℕ)
    → (specialize_checked lib name cs p ≡ ok f) ↔ (
        AllGiven cs p.declared
        × (vs : List Setting) × AreSettings lib p.declared cs vs
        × (lib.specialize name vs ≡ some f))
unfolding specialize_checked
specialize_checked_iff lib name cs p f = (
  λ h.
      let (passes, e2) = >>-eq-ok _ _ h in
      let (vs, made, e3) = >>=-eq-ok (set_values lib p.declared cs) _ e2 in
      (
        (missing_iff cs p.declared).0 (ground arith),
        vs,
        (set_values_iff lib p.declared cs vs).0 made,
        (specialize_with_iff lib name vs f).0 e3,
      ),
  λ h.
      let (given, vs, set, made) = h in
      rw
        (
          (missing_iff cs p.declared).1 given,
          AreSettings-unknown lib p.declared cs vs set,
          (set_values_iff lib p.declared cs vs).1 set,
          (specialize_with_iff lib name vs f).1 made,
        )
        refl,
)

is_empty-eq : {A : Type 0} (xs : List A) → is_empty xs ≡ true → xs ≡ []
is_empty-eq [] h = refl
is_empty-eq (x ∷ xs) h = absurd (ground arith)

specialize_probe_iff :
    (lib : MtlLibrary) (name : Text) (cs : List FunctionConstant) (p : Probe) (f : ℕ)
    → (specialize_probe lib name cs p ≡ ok f) ↔ (IsPlain cs p f ⊎ IsSpecialized lib name cs p f)
unfolding specialize_probe
specialize_probe_iff lib name cs p f =
    let checked = specialize_checked_iff lib name cs p f in
    elim (Bool-cases (is_empty p.declared && is_empty cs)) [
      | inl bare ↦ (
        λ h.
            let same : ok p.function ≡ ok f = ground arith in
            inl (
              is_empty-eq p.declared (ground arith),
              is_empty-eq cs (ground arith),
              ok-injective same,
            ),
        λ h. elim h [
          | inl (none_declared, none_given, same) ↦
              let e : ok p.function ≡ ok f = ap ok same in ground arith
          | inr (full, given, vs, set, made) ↦ absurd (ground arith)
        ],
      )
      | inr full ↦ (
        λ h.
            let e : specialize_checked lib name cs p ≡ ok f = ground arith in
            let (given, vs, set, made) = checked.0 e in inr (full, given, vs, set, made),
        λ h. elim h [
          | inl (none_declared, none_given, same) ↦
              let e : is_empty p.declared ≡ true = ap is_empty none_declared in
              let e2 : is_empty cs ≡ true = ap is_empty none_given in absurd (ground arith)
          | inr (full', given, vs, set, made) ↦
              let e = checked.1 (given, vs, set, made) in ground arith
        ],
      )
    ]

-- `create_specialized` returns the function `f` exactly when the name is text that Metal knows, and
-- either the function declares no constants, none are given and `f` is the function itself, or every
-- required constant is given, every given constant is declared and coerces to its declared type, and
-- `f` is what Metal makes of the function under exactly these values.
pub create_specialized_iff :
    (lib : MtlLibrary) (name : Text) (cs : List FunctionConstant) (f : ℕ)
    → (create_specialized lib name cs ≡ ok f) ↔ Specializes lib name cs f
unfolding create_specialized specialize_found
create_specialized_iff lib name cs f =
    let text = to_ns_string_iff lib.utf8 name (codes "function name") in
    elim (Option-cases (lib.probe name)) [
      | inl absent ↦ (
        λ h.
            let (passes, e2) =
              >>-eq-ok (to_ns_string lib.utf8 name (codes "function name"))
                (specialize_found lib name cs (lib.probe name)) h in
            absurd (ground arith),
        λ h. let e = h.found in absurd (ground arith),
      )
      | inr (p, found) ↦ (
        λ h.
            let (passes, e2) =
              >>-eq-ok (to_ns_string lib.utf8 name (codes "function name"))
                (specialize_found lib name cs (lib.probe name)) h in
            let e : specialize_probe lib name cs p ≡ ok f = ground arith in
            record {
              text = text.0 passes;
              probe = p;
              found = found;
              function = (specialize_probe_iff lib name cs p f).0 e;
            },
        λ h.
            let same : h.probe ≡ p = some-injective (sym h.found ∙ found) in
            let e =
              (specialize_probe_iff lib name cs p f).1
                (subst (λ p. IsPlain cs p f ⊎ IsSpecialized lib name cs p f) same h.function) in
            rw (text.1 h.text, found) e,
      )
    ]
