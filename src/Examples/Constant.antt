-- ===== src/Examples/Constant.antt =====
-- Function constants: a Python int for a `short`, and a double for a `float`.
use metal_runtime.Common.{◌≡◌, refl, [], ◌∷◌, codes}
use metal_runtime.Common.Int.{pos, negsuc}
use metal_runtime.Constant.{short_type, float_type, coerce}
use metal_runtime.Errors.{ok, throw, constant_range}
use metal_runtime.Keys.{FunctionConstant, integer}

abbrev pub tile : FunctionConstant
tile = record { name = codes "tile"; value = integer (negsuc 299) }

-- -300 in two bytes.
tile_bytes : coerce tile short_type ≡ ok (212 ∷ 254 ∷ 0 ∷ 0 ∷ 0 ∷ 0 ∷ 0 ∷ 0 ∷ [])
unfolding coerce
tile_bytes = refl

-- 2 ^ 62, cast to `float`.
float_bytes :
    coerce (record { name = codes "scale"; value = integer (pos 4611686018427387904) }) float_type
    ≡ ok (0 ∷ 0 ∷ 128 ∷ 94 ∷ 0 ∷ 0 ∷ 0 ∷ 0 ∷ [])
unfolding coerce
float_bytes = refl

too_large :
    coerce (record { name = codes "tile"; value = integer (pos 32768) }) short_type
    ≡ throw (constant_range (codes "tile") (pos 32768) (codes "short"))
unfolding coerce
too_large = refl
