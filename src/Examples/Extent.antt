-- ===== src/Examples/Extent.antt =====
-- A 3 by 5 array of half-precision numbers.
use metal_runtime.Common.{◌*◌, ◌^◌, ◌≤◌, ◌≡◌, ◌↔◌, refl, [], ◌∷◌, size_max}
use metal_runtime.DType.{itemsize}
use metal_runtime.Errors.{ok, throw, shape_overflows}
use metal_runtime.Examples.DType.{half}
use metal_runtime.Extent.{sides, to_dim3, allocation_size}
use metal_runtime.Extent.Sizes.{RunsWithin, allocation_size_iff}
use metal_runtime.Word.{mul64}

allocates : allocation_size (3 ∷ 5 ∷ []) half ≡ ok 30
unfolding allocation_size mul64 itemsize
allocates = refl

-- An empty array is refused if the sides before the 0 overflow.
empty_refused : allocation_size (2 ^ 63 ∷ 2 ∷ 0 ∷ []) half ≡ throw shape_overflows
unfolding allocation_size mul64 itemsize
empty_refused = refl

plane : to_dim3 (sides (3 ∷ 5 ∷ [])) ≡ ok (record { x = 3; y = 5; z = 1 })
unfolding to_dim3
plane = refl

allocation_size_iff_example :
    (allocation_size (3 ∷ 5 ∷ []) half ≡ ok 30)
    ↔ (RunsWithin 1 (3 ∷ 5 ∷ []) × (15 * itemsize half ≤ size_max) × (30 ≡ 15 * itemsize half))
allocation_size_iff_example = allocation_size_iff (3 ∷ 5 ∷ []) half 30
