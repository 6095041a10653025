-- ===== src/Constant/Types.antt =====
-- The table of constant types against the table of names.
use metal_runtime.Common.{arith, ◌≡◌, ◌≢◌, some, none}
use metal_runtime.Constant.{
  DataType, bool_type, char_type, short_type, int_type, long_type, uchar_type, ushort_type,
  uint_type, ulong_type, half_type, float_type, bfloat_type, other_type, constant_dtype,
}
use metal_runtime.DType.{DType, msl_type_name}

-- Every type that a constant can have has an MSL name.
pub constant_dtype-named :
    (t : DataType) (d : DType) → constant_dtype t ≡ some d → msl_type_name d ≢ none
unfolding constant_dtype msl_type_name
constant_dtype-named bool_type d h = λ e. ground arith
constant_dtype-named char_type d h = λ e. ground arith
constant_dtype-named short_type d h = λ e. ground arith
constant_dtype-named int_type d h = λ e. ground arith
constant_dtype-named long_type d h = λ e. ground arith
constant_dtype-named uchar_type d h = λ e. ground arith
constant_dtype-named ushort_type d h = λ e. ground arith
constant_dtype-named uint_type d h = λ e. ground arith
constant_dtype-named ulong_type d h = λ e. ground arith
constant_dtype-named half_type d h = λ e. ground arith
constant_dtype-named float_type d h = λ e. ground arith
constant_dtype-named bfloat_type d h = λ e. ground arith
constant_dtype-named (other_type n) d h = λ e. ground arith
