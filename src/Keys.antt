-- ===== src/Keys.antt =====
-- src/library.cpp and src/library.h: `CompileOptions::cache_key`, `pipeline_key`.
-- src/runtime.cpp: the key of `MetalRuntime::library_for`.
mod Sized
pub mod Library
pub mod Pipeline
use metal_runtime.Common.{
  ℕ, zero, suc, Bool, true, false, List, [], ◌∷◌, ◌++◌, Text, codes, length, take,
}
use metal_runtime.Common.Int.{ℤ}
use metal_runtime.DType.{DType, itemsize}
use metal_runtime.Text.{to_string, int_to_string}

pub data MathMode : Type 0 where
  safe relaxed fast : MathMode

-- `(int)(math_mode)`
unfoldable pub math_code : MathMode → ℕ
math_code safe = 0
math_code relaxed = 1
math_code fast = 2

-- `defines` is a `std::map`: its entries in the order of iteration.
pub record CompileOptions : Type 0 where
  pub math_mode : MathMode
  pub defines : List (Text × Text)

-- `std::to_string(s.size()) + ":" + s`
abbrev pub sized : Text → Text
sized s = to_string (length s) ++ b':' ∷ s

-- The loop of `cache_key`.
unfoldable pub add_defines : Text → List (Text × Text) → Text
add_defines out [] = out
add_defines out ((name, value) ∷ defines) =
    add_defines ((out ++ b';' ∷ sized name) ++ b'=' ∷ sized value) defines

unfoldable pub cache_key : CompileOptions → Text
unfolding add_defines math_code
cache_key o = add_defines (codes "math=" ++ to_string (math_code o.math_mode)) o.defines

unfoldable pub library_key : Text → CompileOptions → Text
library_key msl_source options = sized (cache_key options) ++ msl_source

-- A `double` is its bit pattern, a number below 2 ^ 64; `bytes` has eight elements.
pub data ConstantValue : Type 0 where
  boolean : Bool → ConstantValue
  integer : ℤ → ConstantValue
  double : ℕ → ConstantValue
  exact_scalar : DType → List ℕ → ConstantValue

pub record FunctionConstant : Type 0 where
  pub name : Text
  pub value : ConstantValue

-- The loop over the bytes of an exact scalar.
unfoldable pub add_bytes : Text → List ℕ → Text
add_bytes key [] = key
add_bytes key (b ∷ bytes) = add_bytes (key ++ to_string b ++ codes ",") bytes

unfoldable pub add_value : Text → ConstantValue → Text
unfolding add_bytes
add_value key (boolean true) = key ++ codes "B1"
add_value key (boolean false) = key ++ codes "B0"
add_value key (integer i) = key ++ codes "I" ++ int_to_string i
add_value key (double bits) = key ++ codes "F" ++ to_string bits
add_value key (exact_scalar dtype bytes) =
    add_bytes
      (key ++ codes "E" ++ to_string dtype.code ++ codes "." ++ to_string dtype.bits ++ codes ":")
      (take (itemsize dtype) bytes)

-- The loop of `pipeline_key`.
unfoldable pub add_constants : Text → List FunctionConstant → Text
unfolding add_value
add_constants key [] = key
add_constants key (c ∷ cs) =
    add_constants (add_value (key ++ (codes ";" ++ sized c.name) ++ codes "=") c.value) cs

unfoldable pub pipeline_key : Text → List FunctionConstant → Text
unfolding add_constants
pipeline_key name constants = add_constants (sized name) constants
