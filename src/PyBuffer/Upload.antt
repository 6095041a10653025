-- ===== src/PyBuffer/Upload.antt =====
-- An upload of an array.
use metal_runtime.Buffer.{Device}
use metal_runtime.Bytes.{take-append-length}
use metal_runtime.Common.{
  ℕ, ◌*◌, max, ◌≡◌, ◌≢◌, refl, sym, ap, ◌∙◌, subst, arith, List, Option, none, Text, length, take,
  drop,
}
use metal_runtime.DType.{bfloat_code, itemsize}
use metal_runtime.Errors.{ok}
use metal_runtime.Extent.Sizes.{product}
use metal_runtime.PyBuffer.{HostArray, PyBuffer, from_array, view, to_numpy}
use metal_runtime.PyBuffer.Laws.{from_array_iff}
use metal_runtime.PyBuffer.Construct.{
  IsArray, IsWhole, overwrite, length-overwrite, resolve_dtype-itemsize, uploaded,
}

-- The buffer is whole, and holds these bytes for this shape; NumPy reads them where it has the dtype.
abbrev pub Holds : List ℕ → List ℕ → PyBuffer → Type 0
Holds shape bytes b =
    IsWhole b
    × (b.shape ≡ shape)
    × ((view b.contents b.shape b.dtype).bytes ≡ bytes)
    × (b.dtype.code ≢ bfloat_code → to_numpy b none ≡ ok (view b.contents b.shape b.dtype))

to_numpy_of_ne :
    (b : PyBuffer)
    → b.dtype.code ≢ bfloat_code
    → to_numpy b none ≡ ok (view b.contents b.shape b.dtype)
unfolding to_numpy
to_numpy_of_ne b h = ground arith

-- A copy of the bytes of all elements to the start of a large enough allocation.
pub overwrite-Holds :
    (b : PyBuffer) (to bytes : List ℕ)
    → length bytes ≡ product 1 b.shape * itemsize b.dtype
    → b.buffer.size ≡ length bytes
    → length to ≡ max (length bytes) 1
    → b.contents ≡ overwrite to bytes
    → Holds b.shape bytes b
overwrite-Holds b to bytes exact sized room is =
    let filled : length (overwrite to bytes) ≡ length to =
      length-overwrite to bytes (omega arith) in
    let read : take (product 1 b.shape * itemsize b.dtype) (overwrite to bytes) ≡ bytes =
      subst (λ n. take n (overwrite to bytes) ≡ bytes) exact
        (take-append-length bytes (drop (length bytes) to)) in
    (
      (sized ∙ exact, ap length is ∙ filled ∙ room ∙ ap (λ n. max n 1) (sym sized)),
      refl,
      ap (take (product 1 b.shape * itemsize b.dtype)) is ∙ read,
      to_numpy_of_ne b,
    )

-- An upload leaves a whole buffer with the array's shape, and reading it back as it is, or as NumPy
-- does where the dtype is not bfloat16, gives exactly the array's bytes.
pub from_array-Holds :
    (device : Device) (fresh : ℕ → List ℕ) (array : HostArray) (name : Option Text) (b : PyBuffer)
    → ((n : ℕ) → length (fresh n) ≡ n)
    → IsArray array
    → from_array device fresh array name ≡ ok b
    → Holds array.shape array.bytes b
from_array-Holds device fresh array name b fresh_length whole h =
    let (d, k, resolved, runs, fits, made, is) =
      (from_array_iff device fresh array name b fresh_length whole).0 h in
    let exact : length array.bytes ≡ product 1 array.shape * itemsize d =
      whole.1
      ∙ ap (λ n. product 1 array.shape * n)
          (resolve_dtype-itemsize array.dtype array.itemsize name d whole.0 resolved) in
    let holds =
      overwrite-Holds (uploaded fresh array d k) (fresh (max (length array.bytes) 1)) array.bytes
        exact refl (fresh_length (max (length array.bytes) 1)) refl in
    subst (Holds array.shape array.bytes) (sym is) holds
