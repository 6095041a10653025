-- ===== src/Constant/Defined.antt =====
-- The messages of `coerce` print names that are not null.
use metal_runtime.Common.{
  ℕ, ◌≡◌, ◌≢◌, inl, inr, arith, Bool, true, false, not, Bool-cases, Option-cases, none, some,
  if◌then◌else◌, List, Text,
}
use metal_runtime.Common.Int.{ℤ}
use metal_runtime.Constant.{
  DataType, IntType, same_type, half_type, float_type, bool_type, fits, int_to_bytes, int_case,
  coerce_int, coerce_to, coerce, constant_dtype,
}
use metal_runtime.Constant.Types.{constant_dtype-named}
use metal_runtime.DType.{DType, dtype_eq, dtype_name, msl_type_name}
use metal_runtime.Dispatch.Defined.{IsDefined}
use metal_runtime.Errors.{Error, Result, ok, throw, constant_type, constant_range}
use metal_runtime.Keys.{ConstantValue, boolean, integer, double, exact_scalar, FunctionConstant}

-- An exact scalar of a dtype of the table: every other value is fine.
abbrev pub IsSupported : ConstantValue → Type 0
IsSupported (exact_scalar d bytes) = dtype_name d ≢ none
IsSupported (boolean b) = Unit
IsSupported (integer v) = Unit
IsSupported (double bits) = Unit

-- A guard that throws a message, and what follows.
branch-IsDefined :
    (bad : Bool) (e : Error) (r : Result (List ℕ))
    → IsDefined {A = List ℕ} (throw e)
    → IsDefined r
    → IsDefined (if bad then throw e else r)
branch-IsDefined true e r he hr = he
branch-IsDefined false e r he hr = hr

constant_type-IsDefined :
    (name m n : Text) → IsDefined {A = List ℕ} (throw (constant_type name m n))
constant_type-IsDefined name m n = λ h. cc

constant_range-IsDefined :
    (name : Text) (v : ℤ) (m : Text) → IsDefined {A = List ℕ} (throw (constant_range name v m))
constant_range-IsDefined name v m = λ h. cc

ok-IsDefined : (bytes : List ℕ) → IsDefined (ok bytes)
ok-IsDefined bytes = λ h. cc

int_to_bytes-IsDefined :
    (t : IntType) (v : ℤ) (name m : Text) → IsDefined (int_to_bytes t v name (some m))
unfolding int_to_bytes
int_to_bytes-IsDefined t v name m = elim (Bool-cases (fits t v)) [
  | inl inside ↦ rw inside (ok-IsDefined _)
  | inr outside ↦ rw outside (constant_range-IsDefined name v m)
]

coerce_int-IsDefined :
    (declared : DataType) (v : ℤ) (name m : Text) → IsDefined (coerce_int declared v name (some m))
unfolding coerce_int
coerce_int-IsDefined declared v name m = elim (Option-cases (int_case declared)) [
  | inl other ↦
      rw (other, coerce_int)
        (elim (Bool-cases (same_type declared float_type)) [
          | inl y ↦ rw y (ok-IsDefined _)
          | inr n ↦ rw n (constant_type-IsDefined _ _ _)
        ])
  | inr (t, found) ↦ rw (found, coerce_int) (int_to_bytes-IsDefined t v name m)
]

coerce_to-IsDefined :
    (target : DType) (name : Text) (v : ConstantValue) (declared : DataType) (m : Text)
    → msl_type_name target ≡ some m
    → IsSupported v
    → IsDefined (coerce_to target (record { name = name; value = v }) declared)
unfolding coerce_to
coerce_to-IsDefined target name (boolean b) declared m e s = rw e (
    branch-IsDefined (not (same_type declared bool_type)) _ _ (constant_type-IsDefined _ _ _)
      (ok-IsDefined _))
coerce_to-IsDefined target name (double bits) declared m e s = rw e (
    branch-IsDefined (same_type declared half_type) _ _ (constant_type-IsDefined _ _ _) (
      branch-IsDefined (not (same_type declared float_type)) _ _ (constant_type-IsDefined _ _ _)
        (ok-IsDefined _)))
coerce_to-IsDefined target name (exact_scalar d bytes) declared m e s =
    elim (Option-cases (dtype_name d)) [
      | inl missing ↦ absurd (s missing)
      | inr (n, found) ↦
          rw (e, found)
            (branch-IsDefined (not (dtype_eq d target)) _ _ (constant_type-IsDefined _ _ _)
              (ok-IsDefined _))
    ]
coerce_to-IsDefined target name (integer v) declared m e s =
    rw e (coerce_int-IsDefined declared v name m)

-- `coerce` never prints a null name, for any value that can reach it and any declared type.
pub coerce-IsDefined :
    (c : FunctionConstant) (declared : DataType)
    → IsSupported c.value
    → IsDefined (coerce c declared)
unfolding coerce
coerce-IsDefined c declared s = λ h. elim (Option-cases (constant_dtype declared)) [
  | inl unknown ↦ ground arith
  | inr (d, found) ↦ elim (Option-cases (msl_type_name d)) [
    | inl missing ↦ constant_dtype-named declared d found missing
    | inr (m, named) ↦ coerce_to-IsDefined d c.name c.value declared m named s (ground arith)
  ]
]
