-- ===== src/PyConstants.antt =====
-- src/bindings.cpp: `parse_constants`, over the values as nanobind reads them.
pub mod Order
pub mod Sound
pub mod Unordered
use metal_runtime.Bytes.{zeros}
use metal_runtime.Common.{
  ℕ, ◌-◌, ◌^◌, Bool, true, false, not, ◌&&◌, ◌||◌, List, [], ◌∷◌, ◌++◌, Option, none, some, Text,
  length, take, ltb, ◌==◌, if◌then◌else◌,
}
use metal_runtime.Common.Int.{ℤ, pos, negsuc, leb_int}
use metal_runtime.DType.{DType, DlpackType, itemsize, from_dlpack}
use metal_runtime.Errors.{
  Result, ok, throw, ◌>>=◌, ◌>>◌, throw_if, undefined_behaviour, constant_out_of_range,
  constant_kind,
}
use metal_runtime.Keys.{ConstantValue, boolean, integer, double, exact_scalar, FunctionConstant}
use metal_runtime.PyBuffer.{copy_bytes}

-- The `HostArray` of a numpy scalar: its dtype, number of elements and bytes.
pub record Scalar : Type 0 where
  pub dtype : DlpackType
  pub size : ℕ
  pub bytes : List ℕ

-- A value of the dict, by the first test that it passes: a bool, an int, a float (the bits of the
-- double), or any other object, with the array that it casts to.
pub data PyValue : Type 0 where
  py_bool : Bool → PyValue
  py_int : ℤ → PyValue
  py_float : ℕ → PyValue
  py_object : Option Scalar → PyValue

-- `try_cast<int64_t>`
abbrev pub is_int64 : ℤ → Bool
is_int64 v = leb_int (negsuc (2 ^ 63 - 1)) v && leb_int v (pos (2 ^ 63 - 1))

-- The `memcpy` of an element into an array of eight zeros. A read past the array's bytes is undefined.
unfoldable pub parse_element : Scalar → DType → Result ConstantValue
unfolding copy_bytes itemsize
parse_element s d = do
  throw_if (ltb (length s.bytes) (itemsize d)) undefined_behaviour
  bytes ← copy_bytes (zeros 8) (take (itemsize d) s.bytes)
  ok (exact_scalar d bytes)

-- The exact scalar of an array with one element.
unfoldable pub parse_scalar : Text → Scalar → Result ConstantValue
unfolding from_dlpack parse_element
parse_scalar name s = do
  throw_if (not (s.size == 1)) (constant_kind name)
  d ← from_dlpack s.dtype
  parse_element s d

unfoldable pub parse_value : Text → PyValue → Result ConstantValue
unfolding parse_scalar
parse_value name (py_bool b) = ok (boolean b)
parse_value name (py_int v) =
    if is_int64 v then ok (integer v) else throw (constant_out_of_range name)
parse_value name (py_float bits) = ok (double bits)
parse_value name (py_object none) = throw (constant_kind name)
parse_value name (py_object (some s)) = parse_scalar name s

-- The loop over the dict, in its order.
unfoldable pub parse_all : List (Text × PyValue) → Result (List FunctionConstant)
unfolding parse_value
parse_all [] = ok []
parse_all ((name, v) ∷ dict) = do
  value ← parse_value name v
  rest ← parse_all dict
  ok (record { name = name; value = value } ∷ rest)

-- `<` on strings: lexicographic.
abbrev pub text_lt : Text → Text → Bool
text_lt s [] = false
text_lt [] (y ∷ t) = true
text_lt (x ∷ s) (y ∷ t) = let rest = text_lt s t in ltb x y || (x == y && rest)

-- `std::sort` by name. The names of a dict are distinct, so the sorted order is unique.
abbrev pub insert_sorted : FunctionConstant → List FunctionConstant → List FunctionConstant
insert_sorted c [] = c ∷ []
insert_sorted c (d ∷ ds) =
    let rest = insert_sorted c ds in if text_lt c.name d.name then c ∷ d ∷ ds else d ∷ rest

unfoldable pub sort : List FunctionConstant → List FunctionConstant
sort [] = []
sort (c ∷ cs) = insert_sorted c (sort cs)

unfoldable pub parse_constants : List (Text × PyValue) → Result (List FunctionConstant)
unfolding parse_all sort
parse_constants dict = do out ← parse_all dict; ok (sort out)
