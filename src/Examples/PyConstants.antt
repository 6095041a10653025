-- ===== src/Examples/PyConstants.antt =====
-- A dict with two constants, in both orders.
use metal_runtime.Common.{◌≡◌, ◌^◌, refl, List, [], ◌∷◌, some, Text, codes}
use metal_runtime.Common.Int.{pos}
use metal_runtime.Errors.{throw, constant_out_of_range}
use metal_runtime.Examples.DType.{half, half_array}
use metal_runtime.Keys.{FunctionConstant, integer, exact_scalar}
use metal_runtime.PyConstants.{PyValue, py_int, py_object, parse_constants}
use mathlib.Core.Quot
use metal_runtime.Keys.{pipeline_key}
use metal_runtime.PyConstants.Order.{trade}
use metal_runtime.PyConstants.Unordered.{
  Unordered, unordered_constants, unordered_key, unordered_key-injective,
}

abbrev wide : PyValue
wide = py_int (pos 16)

abbrev scale : PyValue
scale = py_object (some (record { dtype = half_array; size = 1; bytes = 0 ∷ 60 ∷ [] }))

abbrev dict : List (Text × PyValue)
dict = (codes "scale", scale) ∷ (codes "N", wide) ∷ []

abbrev turned : List (Text × PyValue)
turned = (codes "N", wide) ∷ (codes "scale", scale) ∷ []

abbrev parsed : List FunctionConstant
parsed =
    record { name = codes "N"; value = integer (pos 16) }
    ∷ record {
      name = codes "scale";
      value = exact_scalar half (0 ∷ 60 ∷ 0 ∷ 0 ∷ 0 ∷ 0 ∷ 0 ∷ 0 ∷ []);
    }
    ∷ []

too_wide :
    parse_constants ((codes "N", py_int (pos (2 ^ 63))) ∷ [])
    ≡ throw (constant_out_of_range (codes "N"))
unfolding parse_constants
too_wide = refl

-- Both orders of the dict are one unordered dict.
one_dict : Path Unordered (Quot.mk dict) (Quot.mk turned)
one_dict = Quot.sound (trade (codes "scale") (codes "N") scale wide refl)

key : unordered_key (codes "f") (Quot.mk turned) ≡ some (pipeline_key (codes "f") parsed)
unfolding unordered_constants parse_constants
key = refl

abbrev asked_key : Text
asked_key = pipeline_key (codes "f") parsed

unordered_key-injective_example :
    (codes "f" ≡ codes "f")
    × (unordered_constants (Quot.mk turned) ≡ unordered_constants (Quot.mk turned))
unordered_key-injective_example =
    unordered_key-injective (codes "f") (codes "f") (Quot.mk turned) (Quot.mk turned) asked_key key
      key
