-- ===== src/Examples/PyBuffer.antt =====
-- Two half-precision numbers, uploaded, copied over and read back.
use metal_runtime.Buffer.{Device, allocate}
use metal_runtime.Common.{
  ℕ, zero, suc, ◌≡◌, ◌≢◌, ◌↔◌, refl, ap, List, [], ◌∷◌, none, some, length, codes, true,
}
use metal_runtime.DType.{DType, bfloat_code, itemsize, dtype_name, to_dlpack, resolve_dtype}
use metal_runtime.Errors.{ok, throw, export_width}
use metal_runtime.Examples.DType.{half, half_array}
use metal_runtime.Extent.{element_count}
use metal_runtime.PyBuffer.Life
use metal_runtime.PyBuffer.Life.{IsTyped, Reach-IsTyped, refilled}
use metal_runtime.PyBuffer.{
  HostArray, PyBuffer, to_dlpack_ndarray, from_array, copy_from, to_numpy, filled, view,
}
use metal_runtime.PyBuffer.Copies.{copy_from_iff, to_numpy_iff}
use metal_runtime.PyBuffer.Upload.{Holds, from_array-Holds}
use metal_runtime.PyBuffer.Construct.{overwrite}
use metal_runtime.Word.{mul64}

abbrev device : Device
device = record {
  new_buffer = λ n. some 5;
  wrap_buffer = λ p n. none;
  contents = λ h. 4096;
  page_bits = 14;
}

-- Allocations start with the byte 170.
abbrev fresh : ℕ → List ℕ
fresh zero = []
fresh (suc n) = 170 ∷ fresh n

length-fresh : (n : ℕ) → length (fresh n) ≡ n
length-fresh zero = refl
length-fresh (suc n) = ap suc (length-fresh n)

abbrev pair : HostArray
pair = record { dtype = half_array; itemsize = 2; shape = 2 ∷ []; bytes = 0 ∷ 60 ∷ 0 ∷ 64 ∷ [] }

abbrev pub held : PyBuffer
held = record {
  shape = 2 ∷ [];
  dtype = half;
  buffer = record { handle = 5; size = 4 };
  contents = 0 ∷ 60 ∷ 0 ∷ 64 ∷ [];
}

uploads : from_array device fresh pair none ≡ ok held
unfolding from_array allocate mul64
uploads = refl

-- An empty buffer has an allocation of one byte.
empty_buffer :
    filled device fresh true (0 ∷ []) (codes "float32")
    ≡ ok (record {
      shape = 0 ∷ [];
      dtype = record { code = 2; bits = 32 };
      buffer = record { handle = 5; size = 0 };
      contents = 170 ∷ [];
    })
unfolding filled allocate mul64 itemsize
empty_buffer = refl

relabelled :
    to_numpy held (some (codes "uint16"))
    ≡ ok (record {
      dtype = record { code = 1; bits = 16; lanes = 1 };
      itemsize = 2;
      shape = 2 ∷ [];
      bytes = 0 ∷ 60 ∷ 0 ∷ 64 ∷ [];
    })
unfolding to_numpy to_dlpack
relabelled = refl

too_wide : to_numpy held (some (codes "float32")) ≡ throw (export_width (codes "float32") 4 2)
unfolding to_numpy
too_wide = refl

from_array-Holds_example : Holds (2 ∷ []) (0 ∷ 60 ∷ 0 ∷ 64 ∷ []) held
from_array-Holds_example =
    from_array-Holds device fresh pair none held length-fresh (refl, refl) uploads

abbrev flipped : HostArray
flipped = record {
  dtype = half_array;
  itemsize = 2;
  shape = 1 ∷ 2 ∷ [];
  bytes = 0 ∷ 64 ∷ 0 ∷ 60 ∷ [];
}

copy_from_iff_example :
    (copy_from held flipped none ≡ ok (record held { contents = 0 ∷ 64 ∷ 0 ∷ 60 ∷ [] })) ↔ (
      (resolve_dtype half_array 2 none ≡ ok half)
      × (length flipped.bytes ≡ 4)
      × (record held { contents = 0 ∷ 64 ∷ 0 ∷ 60 ∷ [] }
          ≡ record held { contents = overwrite (0 ∷ 60 ∷ 0 ∷ 64 ∷ []) (0 ∷ 64 ∷ 0 ∷ 60 ∷ []) })
      × Holds (2 ∷ []) (0 ∷ 64 ∷ 0 ∷ 60 ∷ []) (record held { contents = 0 ∷ 64 ∷ 0 ∷ 60 ∷ [] }))
unfolding itemsize
copy_from_iff_example =
    copy_from_iff held (record held { contents = 0 ∷ 64 ∷ 0 ∷ 60 ∷ [] }) flipped none (refl, refl)

abbrev words : HostArray
words = record {
  dtype = record { code = 1; bits = 16; lanes = 1 };
  itemsize = 2;
  shape = 2 ∷ [];
  bytes = 0 ∷ 60 ∷ 0 ∷ 64 ∷ [];
}

to_numpy_iff_example : (to_numpy held (some (codes "uint16")) ≡ ok words) ↔ (
    (d : DType) × (dtype_name d ≡ some (codes "uint16"))
    × (itemsize d ≡ itemsize half)
    × (d.code ≢ bfloat_code)
    × (words ≡ view (0 ∷ 60 ∷ 0 ∷ 64 ∷ []) (2 ∷ []) d)
    × (length words.bytes ≡ 4))
unfolding itemsize
to_numpy_iff_example = to_numpy_iff held (codes "uint16") words (refl, refl)

refills : copy_from held flipped none ≡ ok (record held { contents = 0 ∷ 64 ∷ 0 ∷ 60 ∷ [] })
unfolding copy_from itemsize
refills = refl

Reach-IsTyped_example :
    IsTyped (record held { contents = 0 ∷ 64 ∷ 0 ∷ 60 ∷ [] })
    × (element_count 4 half ≡ 2)
    × (length (to_dlpack_ndarray (record held { contents = 0 ∷ 64 ∷ 0 ∷ 60 ∷ [] })).bytes ≡ 4)
Reach-IsTyped_example = Reach-IsTyped device fresh length-fresh (
    refilled flipped none held (record held { contents = 0 ∷ 64 ∷ 0 ∷ 60 ∷ [] })
      (Life.uploaded pair none held (refl, refl) uploads) refills)
