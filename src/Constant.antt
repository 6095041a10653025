-- ===== src/Constant.antt =====
-- src/library.cpp: the types of function constants, `constant_dtype`, `int_to_bytes` and `coerce`.
pub mod Coerce
pub mod Types
pub mod Defined
use metal_runtime.Bytes.{zeros, le_bytes, pattern_of}
use metal_runtime.Bytes.Float.{float_of_int, float_of_double}
use metal_runtime.Common.{
  ℕ, ◌+◌, ◌-◌, ◌*◌, ◌^◌, Bool, true, false, not, ◌&&◌, List, [], ◌∷◌, ◌++◌, Option, none, some,
  Text, codes, leb, ◌==◌, if◌then◌else◌,
}
use metal_runtime.Common.Int.{ℤ, pos, negsuc, leb_int}
use metal_runtime.DType.{
  DType, dtype_eq, dtype_name, msl_type_name, bool_code, int_code, uint_code, float_code,
  bfloat_code,
}
use metal_runtime.Errors.{
  Error, Result, ok, throw, undefined_behaviour, constant_unsupported, constant_type,
  constant_range,
}
use metal_runtime.Keys.{ConstantValue, boolean, integer, double, exact_scalar, FunctionConstant}

-- `MTL::DataType`: the scalar types that the source names, and every other enumerator by its value.
pub data DataType : Type 0 where
  bool_type char_type short_type int_type long_type : DataType
  uchar_type ushort_type uint_type ulong_type : DataType
  half_type float_type bfloat_type : DataType
  other_type : ℕ → DataType

-- `==` on the enumerators compares their values; distinct numbers stand for these.
abbrev pub type_code : DataType → ℕ
type_code bool_type = 0
type_code char_type = 1
type_code short_type = 2
type_code int_type = 3
type_code long_type = 4
type_code uchar_type = 5
type_code ushort_type = 6
type_code uint_type = 7
type_code ulong_type = 8
type_code half_type = 9
type_code float_type = 10
type_code bfloat_type = 11
type_code (other_type n) = 12 + n

-- The value that a message prints. Only a type that the table lacks is reported, and `other_type` carries
-- its value; what stands here for the others is never printed.
abbrev printed_value : DataType → ℕ
printed_value (other_type n) = n
printed_value t = type_code t

abbrev pub same_type : DataType → DataType → Bool
same_type s t = type_code s == type_code t

abbrev dtype : ℕ → ℕ → DType
dtype code bits = record { code = code; bits = bits }

-- `kConstantTypes`
abbrev pub constant_types : List (DataType × DType)
constant_types =
    (bool_type, dtype bool_code 8)
    ∷ (char_type, dtype int_code 8)
    ∷ (short_type, dtype int_code 16)
    ∷ (int_type, dtype int_code 32)
    ∷ (long_type, dtype int_code 64)
    ∷ (uchar_type, dtype uint_code 8)
    ∷ (ushort_type, dtype uint_code 16)
    ∷ (uint_type, dtype uint_code 32)
    ∷ (ulong_type, dtype uint_code 64)
    ∷ (half_type, dtype float_code 16)
    ∷ (float_type, dtype float_code 32)
    ∷ (bfloat_type, dtype bfloat_code 16)
    ∷ []

-- The loop of `constant_dtype`.
unfoldable pub find_type : DataType → List (DataType × DType) → Option DType
find_type t [] = none
find_type t ((mtl, d) ∷ es) = if same_type mtl t then some d else find_type t es

unfoldable pub constant_dtype : DataType → Option DType
unfolding find_type
constant_dtype t = find_type t constant_types

-- `to_bytes<T>` of a value with this pattern, where T has `n` bytes: the array starts as zeros.
abbrev pub to_bytes : ℕ → ℕ → List ℕ
to_bytes n pattern = le_bytes n pattern ++ zeros (8 - n)

-- The type argument of `int_to_bytes`: `int8_t` to `uint64_t`.
pub record IntType : Type 0 where
  pub signed : Bool
  pub size : ℕ

abbrev pub width : IntType → ℕ
width t = 8 * t.size

-- `numeric_limits<T>`, of a signed type.
abbrev pub type_min : IntType → ℤ
type_min t = negsuc (2 ^ (width t - 1) - 1)

abbrev pub type_max : IntType → ℤ
type_max t = pos (2 ^ (width t - 1) - 1)

-- The range test: an unsigned type compares the value as a `uint64_t`, once it is not negative.
unfoldable pub fits : IntType → ℤ → Bool
unfolding pattern_of
fits t v =
    if t.signed
    then leb_int (type_min t) v && leb_int v (type_max t)
    else leb_int (pos 0) v && leb (pattern_of 64 v) (2 ^ width t - 1)

-- A message that prints the name of a type: a null name is undefined.
abbrev pub with_name : Option Text → (Text → Error) → Error
with_name none message = undefined_behaviour
with_name (some msl_name) message = message msl_name

unfoldable pub int_to_bytes : IntType → ℤ → Text → Option Text → Result (List ℕ)
unfolding fits pattern_of
int_to_bytes t v name msl_name =
    if fits t v
    then ok (to_bytes t.size (pattern_of (width t) v))
    else throw (with_name msl_name (constant_range name v))

-- The cases of `coerce`'s switch that call `int_to_bytes`.
abbrev pub int_case : DataType → Option IntType
int_case char_type = some (record { signed = true; size = 1 })
int_case short_type = some (record { signed = true; size = 2 })
int_case int_type = some (record { signed = true; size = 4 })
int_case long_type = some (record { signed = true; size = 8 })
int_case uchar_type = some (record { signed = false; size = 1 })
int_case ushort_type = some (record { signed = false; size = 2 })
int_case uint_type = some (record { signed = false; size = 4 })
int_case ulong_type = some (record { signed = false; size = 8 })
int_case t = none

-- The switch.
unfoldable pub coerce_int : DataType → ℤ → Text → Option Text → Result (List ℕ)
unfolding int_to_bytes float_of_int
coerce_int declared v name msl_name = elim (int_case declared) [
  | some t ↦ int_to_bytes t v name msl_name
  | none ↦
      if same_type declared float_type
      then ok (to_bytes 4 (float_of_int v))
      else throw (with_name msl_name (λ m. constant_type name m (codes "a Python int")))
]

-- `coerce` for a type of the table.
unfoldable pub coerce_to : DType → FunctionConstant → DataType → Result (List ℕ)
unfolding coerce_int float_of_double dtype_name msl_type_name
coerce_to target c declared =
    let msl_name : Option Text = msl_type_name target in
    elim (c.value) [
      | exact_scalar d bytes ↦
          if not (dtype_eq d target)
          then throw
              (with_name (dtype_name d) (λ n. with_name msl_name (λ m. constant_type c.name m n)))
          else ok bytes
      | boolean b ↦
          if not (same_type declared bool_type)
          then throw (with_name msl_name (λ m. constant_type c.name m (codes "a Python bool")))
          else ok (to_bytes 1 (if b then 1 else 0))
      | double bits ↦
          if same_type declared half_type
          then throw (
              with_name msl_name
                (λ m. constant_type c.name m (codes "a Python float; pass numpy.float16(value)")))
          else if not (same_type declared float_type)
          then throw (with_name msl_name (λ m. constant_type c.name m (codes "a Python float")))
          else ok (to_bytes 4 (float_of_double bits))
      | integer v ↦ coerce_int declared v c.name msl_name
    ]

unfoldable pub coerce : FunctionConstant → DataType → Result (List ℕ)
unfolding constant_dtype coerce_to
coerce c declared = elim (constant_dtype declared) [
  | none ↦ throw (constant_unsupported c.name (printed_value declared))
  | some target ↦ coerce_to target c declared
]
