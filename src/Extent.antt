-- ===== src/Extent.antt =====
-- src/bindings.cpp: `to_dim3`, and the sizes of a `PyBuffer`: `checked_element_count`,
-- `checked_byte_count` and `size`.
pub mod Sizes
use metal_runtime.Common.{
  ℕ, ◌*◌, ◌/◌, not, ◌&&◌, ◌||◌, List, [], ◌∷◌, length, ltb, ◌==◌, if◌then◌else◌, size_max,
}
use metal_runtime.DType.{DType, itemsize}
use metal_runtime.Dispatch.{Dim3}
use metal_runtime.Errors.{
  Result, ok, throw, ◌>>=◌, ◌>>◌, throw_if, extent_dimensions, shape_overflows, bytes_overflow,
}
use metal_runtime.Word.{mul64}

-- `Extent`: a bare number is the 1D case.
pub data Extent : Type 0 where
  line : ℕ → Extent
  sides : List ℕ → Extent

-- `to_dim3` of a vector: 1 to 3 sides, and the others are 1.
unfoldable pub vector_to_dim3 : List ℕ → Result Dim3
vector_to_dim3 [] = throw (extent_dimensions 0)
vector_to_dim3 (x ∷ []) = ok (record { x = x; y = 1; z = 1 })
vector_to_dim3 (x ∷ y ∷ []) = ok (record { x = x; y = y; z = 1 })
vector_to_dim3 (x ∷ y ∷ z ∷ []) = ok (record { x = x; y = y; z = z })
vector_to_dim3 (x ∷ y ∷ z ∷ w ∷ dims) = throw (extent_dimensions (length (x ∷ y ∷ z ∷ w ∷ dims)))

unfoldable pub to_dim3 : Extent → Result Dim3
unfolding vector_to_dim3
to_dim3 (line n) = ok (record { x = n; y = 1; z = 1 })
to_dim3 (sides dims) = vector_to_dim3 dims

-- The loop of `checked_element_count`.
unfoldable pub count_elements : ℕ → List ℕ → Result ℕ
count_elements count [] = ok count
count_elements count (dim ∷ shape) = do
  throw_if (not (dim == 0) && ltb (size_max / dim) count) shape_overflows
  count_elements (mul64 count dim) shape

unfoldable pub checked_element_count : List ℕ → Result ℕ
unfolding count_elements
checked_element_count shape = count_elements 1 shape

unfoldable pub checked_byte_count : ℕ → DType → Result ℕ
checked_byte_count count dtype = do
  throw_if (not (count == 0) && ltb (size_max / count) (itemsize dtype)) bytes_overflow
  ok (mul64 count (itemsize dtype))

-- The allocation's size in `PyBuffer`'s constructor.
unfoldable pub allocation_size : List ℕ → DType → Result ℕ
unfolding checked_element_count checked_byte_count
allocation_size shape dtype = do count ← checked_element_count shape; checked_byte_count count dtype

-- `PyBuffer::size`
unfoldable pub element_count : ℕ → DType → ℕ
element_count nbytes dtype = nbytes / itemsize dtype
