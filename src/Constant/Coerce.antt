-- ===== src/Constant/Coerce.antt =====
-- What `coerce` makes of a value.
use metal_runtime.Bytes.{of_bytes, of_pattern}
use metal_runtime.Common.{ℕ, ◌-◌, ◌*◌, ◌^◌, ◌≤◌, ◌≡◌, List, some, Text, take, if◌then◌else◌}
use metal_runtime.Common.Int.{ℤ, pos, negsuc, ◌≤ℤ◌}
use metal_runtime.Constant.{DataType, IntType, width, type_min, type_max, constant_dtype}
use metal_runtime.DType.{DType, msl_type_name}

-- A value of the type.
abbrev pub InRange : IntType → ℤ → Type 0
InRange t v =
    if t.signed
    then (type_min t ≤ℤ v) × (v ≤ℤ type_max t)
    else (pos 0 ≤ℤ v) × (v ≤ℤ pos (2 ^ width t - 1))

abbrev pub IsInt64 : ℤ → Type 0
IsInt64 v = (negsuc (2 ^ 63 - 1) ≤ℤ v) × (v ≤ℤ pos (2 ^ 63 - 1))

-- The integer that the first bytes of a constant's array hold.
abbrev pub decode : IntType → List ℕ → ℤ
decode t bytes = of_pattern t.signed (width t) (of_bytes (take t.size bytes))

-- What the proofs need of the eight integer types.
record IsWidth (declared : DataType) (t : IntType) : Type 0 where
  bytes : 2 ^ width t ≡ 256 ^ t.size
  half : 2 ^ width t ≡ 2 * 2 ^ (width t - 1)
  short : t.size ≤ 8
  target : DType
  listed : constant_dtype declared ≡ some target
  name : Text
  named : msl_type_name target ≡ some name
