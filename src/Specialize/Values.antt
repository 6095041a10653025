-- ===== src/Specialize/Values.antt =====
-- Which constants are missing, and the values that are set.
use metal_runtime.Common.{
  ◌≡◌, ◌≢◌, ◌↔◌, inl, inr, refl, sym, ap, ◌∙◌, subst, arith, Bool, true, false, Bool-cases,
  Option-cases, List, [], ◌∷◌, none, some, Text, All,
}
use metal_runtime.Constant.{coerce}
use metal_runtime.Errors.{ok, >>=-eq-ok, >>-eq-ok, ok-injective, some-injective}
use metal_runtime.Keys.{FunctionConstant}
use metal_runtime.Specialize.{
  Declared, Setting, MtlLibrary, has_nul, to_ns_string, find_declared, is_provided, missing,
  unknown, is_empty, value_name, set_declared, set_value, set_values,
}

-- Bytes that NSString takes whole.
abbrev pub IsText : (Text → Bool) → Text → Type 0
IsText utf8 s = (has_nul s ≡ false) × (utf8 s ≡ true)

pub to_ns_string_iff :
    (utf8 : Text → Bool) (s what : Text) → (to_ns_string utf8 s what ≡ ok tt) ↔ IsText utf8 s
unfolding to_ns_string
to_ns_string_iff utf8 s what = (λ h. (ground arith, ground arith), λ h. ground arith)

-- Every required constant is given.
abbrev pub AllGiven : List FunctionConstant → List (Text × Declared) → Type 0
AllGiven cs = All λ e. (e.1.required ≡ true → is_provided e.0 cs ≡ true)

pub missing_iff :
    (cs : List FunctionConstant) (ds : List (Text × Declared))
    → (is_empty (missing cs ds) ≡ true) ↔ AllGiven cs ds
unfolding missing
missing_iff cs [] = (λ h. tt, λ h. refl)
missing_iff cs ((n, d) ∷ ds) =
    let rest = missing_iff cs ds in
    elim (Bool-cases (d.required)) [
      | inl required ↦ (
        λ h. (λ r. ground arith, rest.0 (ground arith)),
        λ h. ground (arith, rest.1 h.1, h.0 required),
      )
      | inr optional ↦ (λ h. (λ r. cc, rest.0 (ground arith)), λ h. ground (arith, rest.1 h.1))
    ]

-- A constant under its declaration: the bytes that its value coerces to, and the declared type.
abbrev pub IsSetting : MtlLibrary → List (Text × Declared) → FunctionConstant → Setting → Type 0
IsSetting lib ds c v =
    (d : Declared) × (find_declared c.name ds ≡ some d)
    × (coerce c d.type ≡ ok v.bytes)
    × (v.type ≡ d.type)
    × (v.name ≡ c.name)
    × IsText lib.utf8 c.name

abbrev pub AreSettings :
    MtlLibrary → List (Text × Declared) → List FunctionConstant → List Setting → Type 0
AreSettings lib ds [] [] = Unit
AreSettings lib ds [] (v ∷ vs) = ⊥
AreSettings lib ds (c ∷ cs) [] = ⊥
AreSettings lib ds (c ∷ cs) (v ∷ vs) = IsSetting lib ds c v × AreSettings lib ds cs vs

set_declared_iff :
    (lib : MtlLibrary) (c : FunctionConstant) (d : Declared) (v : Setting)
    → (set_declared lib c d ≡ ok v) ↔ (
        (coerce c d.type ≡ ok v.bytes)
        × (v.type ≡ d.type)
        × (v.name ≡ c.name)
        × IsText lib.utf8 c.name)
unfolding set_declared
set_declared_iff lib c d v =
    let text = to_ns_string_iff lib.utf8 c.name value_name in
    (
      λ h.
          let (bytes, made, e2) = >>=-eq-ok (coerce c d.type) _ h in
          let (passes, e3) = >>-eq-ok _ _ e2 in
          subst
            (λ (v : Setting).
              (coerce c d.type ≡ ok v.bytes)
              × (v.type ≡ d.type)
              × (v.name ≡ c.name)
              × IsText lib.utf8 c.name)
            (ok-injective e3) (made, refl, refl, text.0 passes),
      λ h.
          let (made, type, name, good) = h in
          rw (made, text.1 good)
            (λ i. ok (record { bytes = v.bytes; type = sym type i; name = sym name i })),
    )

set_value_iff :
    (lib : MtlLibrary) (ds : List (Text × Declared)) (c : FunctionConstant) (v : Setting)
    → (set_value lib ds c ≡ ok v) ↔ IsSetting lib ds c v
unfolding set_value
set_value_iff lib ds c v = elim (Option-cases (find_declared c.name ds)) [
  | inl absent ↦ (λ h. absurd (ground arith), λ h. let e = h.1 in absurd (ground arith))
  | inr (d, found) ↦
      let known = set_declared_iff lib c d v in
      (
        λ h. let (m, t, n, g) = known.0 (ground arith) in (d, found, m, t, n, g),
        λ h.
            let (d', found', m, t, n, g) = h in
            let same : d' ≡ d = some-injective (sym found' ∙ found) in
            let made = known.1 (
              subst (λ (d : Declared). coerce c d.type ≡ ok v.bytes) same m,
              t ∙ ap (λ (d : Declared). d.type) same,
              n,
              g,
            ) in
            ground arith,
      )
]

pub set_values_iff :
    (lib : MtlLibrary) (ds : List (Text × Declared)) (cs : List FunctionConstant)
    (vs : List Setting)
    → (set_values lib ds cs ≡ ok vs) ↔ AreSettings lib ds cs vs
unfolding set_values
set_values_iff lib ds [] [] = (λ h. tt, λ h. refl)
set_values_iff lib ds [] (v ∷ vs) = (λ h. cc, λ h. absurd h)
set_values_iff lib ds (c ∷ cs) [] = (
  λ h.
      let (w, _, e) = >>=-eq-ok (set_value lib ds c) _ h in
      let (ws, _, e2) = >>=-eq-ok (set_values lib ds cs) _ e in let bad = ok-injective e2 in cc,
  λ h. absurd h,
)
set_values_iff lib ds (c ∷ cs) (v ∷ vs) = (
  λ h.
      let (w, first, e) = >>=-eq-ok (set_value lib ds c) _ h in
      let (ws, rest, e2) = >>=-eq-ok (set_values lib ds cs) _ e in
      let same : w ∷ ws ≡ v ∷ vs = ok-injective e2 in
      let head : w ≡ v = cc in
      let tail : ws ≡ vs = cc in
      (
        (set_value_iff lib ds c v).0 (first ∙ ap ok head),
        (set_values_iff lib ds cs vs).0 (rest ∙ ap ok tail),
      ),
  λ h. rw ((set_value_iff lib ds c v).1 h.0, (set_values_iff lib ds cs vs).1 h.1) refl,
)

-- Every given constant is declared.
AllDeclared : List (Text × Declared) → List FunctionConstant → Type 0
AllDeclared ds = All λ c. (find_declared c.name ds ≢ none)

pub AreSettings-unknown :
    (lib : MtlLibrary) (ds : List (Text × Declared)) (cs : List FunctionConstant)
    (vs : List Setting)
    → AreSettings lib ds cs vs
    → is_empty (unknown ds cs) ≡ true
unfolding unknown
AreSettings-unknown lib ds [] vs h = refl
AreSettings-unknown lib ds (c ∷ cs) [] h = absurd h
AreSettings-unknown lib ds (c ∷ cs) (v ∷ vs) h =
    let found = h.0.1 in let rest = AreSettings-unknown lib ds cs vs h.1 in ground arith
