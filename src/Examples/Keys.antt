-- ===== src/Examples/Keys.antt =====
-- Keys of two small libraries and pipelines.
use metal_runtime.Common.{◌≡◌, refl, arith, List, [], ◌∷◌, codes, true}
use metal_runtime.Common.Int.{negsuc}
use metal_runtime.DType.{float_code, itemsize}
use metal_runtime.Keys.{
  fast, CompileOptions, cache_key, FunctionConstant, boolean, integer, exact_scalar, pipeline_key,
}
use metal_runtime.Text.{to_string, int_to_string}
use metal_runtime.Keys.Library.{library_key-injective}
use metal_runtime.Keys.Pipeline.{AreWhole}

abbrev pub options : CompileOptions
options = record { math_mode = fast; defines = (codes "N", codes "16") ∷ [] }

options_key : cache_key options ≡ codes "math=2;1:N=2:16"
unfolding cache_key to_string
options_key = refl

library_key-injective_example : (codes "x" ≡ codes "x") × (options ≡ options)
library_key-injective_example = library_key-injective (codes "x") (codes "x") options options refl

abbrev pub constants : List FunctionConstant
constants =
    record { name = codes "on"; value = boolean true }
    ∷ record { name = codes "d"; value = integer (negsuc 2) }
    ∷ record {
      name = codes "h";
      value =
          exact_scalar (record { code = float_code; bits = 16 })
            (0 ∷ 60 ∷ 0 ∷ 0 ∷ 0 ∷ 0 ∷ 0 ∷ 0 ∷ []);
    }
    ∷ []

pub constants-AreWhole : AreWhole constants
unfolding itemsize
constants-AreWhole = (tt, (tt, ((omega arith, refl), tt)))

constants_key : pipeline_key (codes "f") constants ≡ codes "1:f;2:on=B1;1:d=I-3;1:h=E2.16:0,60,"
unfolding pipeline_key itemsize to_string int_to_string
constants_key = refl
