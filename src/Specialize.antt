-- ===== src/Specialize.antt =====
-- src/metal.h: `to_ns_string`. src/library.cpp: `read_declared`, `Library::create_specialized`.
pub mod Values
pub mod Laws
use metal_runtime.Common.{
  ℕ, Bool, true, false, not, ◌&&◌, ◌||◌, List, [], ◌∷◌, Option, none, some, Text, codes, text_eq,
  any, ◌==◌, if◌then◌else◌,
}
use metal_runtime.Constant.{DataType, coerce}
use metal_runtime.Errors.{
  Result, ok, throw, ◌>>=◌, ◌>>◌, throw_if, nul_byte, not_utf8, function_not_found,
  constants_mismatch, specialization_failed, missing_key,
}
use metal_runtime.Keys.{FunctionConstant}

-- `DeclaredConstant`
pub record Declared : Type 0 where
  pub type : DataType
  pub required : Bool

-- A function that was found, and the `std::map` that `read_declared` fills from its reflection.
pub record Probe : Type 0 where
  pub function : ℕ
  pub declared : List (Text × Declared)

-- A `setConstantValue`: the bytes, the type and the name.
pub record Setting : Type 0 where
  pub bytes : List ℕ
  pub type : DataType
  pub name : Text

-- What the program calls of an `MTL::Library`: `newFunction` by name, and with values. `utf8` is
-- whether NSString takes the bytes.
pub record MtlLibrary : Type 0 where
  pub probe : Text → Option Probe
  pub specialize : Text → List Setting → Option ℕ
  pub utf8 : Text → Bool

abbrev pub has_nul : Text → Bool
has_nul s = any (λ c. c == 0) s

unfoldable pub to_ns_string : (Text → Bool) → Text → Text → Result (Unit {0})
to_ns_string utf8 s what = do
  throw_if (has_nul s) (nul_byte what)
  throw_if (not (utf8 s)) (not_utf8 what)

-- `declared.count`, and the search of `declared.at`.
unfoldable pub find_declared : Text → List (Text × Declared) → Option Declared
find_declared name [] = none
find_declared name ((n, d) ∷ ds) = if text_eq n name then some d else find_declared name ds

unfoldable pub is_provided : Text → List FunctionConstant → Bool
is_provided name constants = any (λ c. text_eq c.name name) constants

-- The names that the loop over `declared` adds to `missing`.
unfoldable pub missing : List FunctionConstant → List (Text × Declared) → List Text
unfolding is_provided
missing constants [] = []
missing constants ((n, d) ∷ ds) =
    let rest = missing constants ds in
    if d.required && not (is_provided n constants) then n ∷ rest else rest

-- The names that the loop over `constants` adds to `unknown`.
unfoldable pub unknown : List (Text × Declared) → List FunctionConstant → List Text
unfolding find_declared
unknown declared [] = []
unknown declared (c ∷ cs) =
    let rest = unknown declared cs in
    elim (find_declared c.name declared) [ none ↦ c.name ∷ rest | some d ↦ rest ]

abbrev pub is_empty {ℓ} : {A : Type ℓ} → List A → Bool
is_empty [] = true
is_empty (x ∷ xs) = false

abbrev pub value_name : Text
value_name = codes "function constant name"

-- One round of the loop that sets the values, behind `declared.at`.
unfoldable pub set_declared : MtlLibrary → FunctionConstant → Declared → Result Setting
unfolding to_ns_string
set_declared lib c d = do
  bytes ← coerce c d.type
  to_ns_string lib.utf8 c.name value_name
  ok (record { bytes = bytes; type = d.type; name = c.name })

unfoldable pub set_value : MtlLibrary → List (Text × Declared) → FunctionConstant → Result Setting
unfolding find_declared set_declared
set_value lib declared c = elim (find_declared c.name declared) [
  | none ↦ throw (missing_key c.name)
  | some d ↦ set_declared lib c d
]

unfoldable pub set_values :
    MtlLibrary → List (Text × Declared) → List FunctionConstant → Result (List Setting)
unfolding set_value
set_values lib declared [] = ok []
set_values lib declared (c ∷ cs) = do
  v ← set_value lib declared c
  vs ← set_values lib declared cs
  ok (v ∷ vs)

unfoldable pub specialize_with : MtlLibrary → Text → List Setting → Result ℕ
specialize_with lib name values = elim (lib.specialize name values) [
  | none ↦ throw (specialization_failed name)
  | some f ↦ ok f
]

-- Behind the shortcut: the two checks, the values and the second `newFunction`.
unfoldable pub specialize_checked : MtlLibrary → Text → List FunctionConstant → Probe → Result ℕ
unfolding missing unknown set_values specialize_with
specialize_checked lib name constants probe =
    let absent = missing constants probe.declared in
    let extra = unknown probe.declared constants in
    do
      throw_if (not (is_empty absent) || not (is_empty extra))
          (constants_mismatch name absent extra)
      values ← set_values lib probe.declared constants
      specialize_with lib name values

-- Behind the probe.
unfoldable pub specialize_probe : MtlLibrary → Text → List FunctionConstant → Probe → Result ℕ
unfolding specialize_checked
specialize_probe lib name constants probe =
    if is_empty probe.declared && is_empty constants
    then ok probe.function
    else specialize_checked lib name constants probe

-- Behind the conversion of the name.
unfoldable pub specialize_found :
    MtlLibrary → Text → List FunctionConstant → Option Probe → Result ℕ
unfolding specialize_probe
specialize_found lib name constants none = throw (function_not_found name)
specialize_found lib name constants (some probe) = specialize_probe lib name constants probe

unfoldable pub create_specialized : MtlLibrary → Text → List FunctionConstant → Result ℕ
unfolding to_ns_string specialize_found
create_specialized lib name constants = do
  to_ns_string lib.utf8 name (codes "function name")
  specialize_found lib name constants (lib.probe name)
